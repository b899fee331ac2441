-- ===== src/Reload/Updates/Tests.antt =====
-- main.rs, the reloads: concrete runs, and the theorems at concrete inputs.
use tobira.Base.{
  ℕ, refl, true, false, none, some, String, List, [], ◌∷◌, ◌++◌, ok, err, codes, str_eq,
  append_assoc, if◌then◌else◌, ◌==◌,
}
use tobira.Auth.{Crypto}
use tobira.Config.{Config, default_relay, default_http, default_subscription, grpc}
use tobira.Process.{Regexes}
use tobira.Validator.{new, new_loop, grpc_endpoints, endpoints_of}
use tobira.Manager.{build_validator, node_pairs}
use tobira.Manager.Fetch.{Files}
use tobira.Http.Links.{Encoders}
use tobira.Pool.{GrpcPool, free, prune_to_endpoints, prune_rounds, remove, clear, set_idle_timeout}
use tobira.Reload.{other_error, load_config_with_retry, retry_loop, preserve_running_relay}
use tobira.Reload.Updates.{
  Shared, Outside, MainEvent, quits, full_requested, subs_requested, load_subscriptions, apply_full,
  store_full, full_with, reload_full, main_loop,
}
use tobira.Reload.Updates.Consistent.{
  KeepsListener, IsPruned, main_loop-KeepsListener, reload_full-IsPruned,
}

abbrev plain : Crypto
plain = record {
  Sha256 = List ℕ;
  sha_new = [];
  sha_update = λ s bytes. s ++ bytes;
  sha_finalize = λ s. s;
  sha_update_append = λ s a b. append_assoc s a b;
  md5 = λ bytes. bytes;
  aes_decrypt = λ key block. block;
  crc32 = λ bytes. 0;
}

abbrev encoders : Encoders
encoders = record {
  utf8 = codes;
  from_utf8 = λ bytes. "?";
  base64 = λ s. s;
  base64_url_safe = λ s. s;
  print_json = λ members. "{}";
  print_url = λ base pairs fragment. base;
  is_ipv6 = λ s. false;
}

abbrev whole_text : Regexes
whole_text = record {
  Regex = String;
  compile = λ p. some p;
  is_match = λ re text. str_eq re text;
  replace_all = λ re text replacement. replacement;
}

abbrev as_default : Config
as_default = record {
  log_level = "info";
  relay = default_relay;
  http = default_http;
  subscription = default_subscription;
}

-- A pool with a connection to an endpoint that no node has any more.
abbrev one_conn : GrpcPool
one_conn = record {
  conns = ("a.example:10.0.0.1:443", 0) ∷ [];
  slots = λ i. if i == 0 then free (some (record { id = 1; last_used = 5 })) else free none;
  slot_count = 1;
  next_conn_id = 2;
  idle_timeout = none;
}

abbrev no_files : Files
no_files = λ path. none

abbrev start : Shared
start = record {
  config = record as_default { relay = record default_relay { network = grpc } };
  log_filter = "info";
  relay_idle_timeout = none;
  pool = one_conn;
  validator = record { entries = [] };
  http = record { users = []; outputs = [] };
}

-- The file is there, and the sources have no nodes; or there is no such file.
abbrev no_nodes : Outside
no_nodes = record {
  reads_config = λ n. ok as_default;
  fetches = λ config. some [];
  saves = λ config files. files;
  rust_log = none;
  takes_filter = λ level. true;
}

abbrev no_file : Outside
no_file = record {
  reads_config = λ n. err other_error;
  fetches = λ config. some [];
  saves = λ config files. files;
  rust_log = none;
  takes_filter = λ level. true;
}

abbrev after_reload : Shared
unfolding reload_full
after_reload =
    elim (reload_full (λ s. none) (λ s. none) plain encoders whole_text no_nodes no_files start).0 [
      | none ↦ start
      | some (how, s) ↦ s
    ]

reload_full-IsPruned_example : IsPruned start after_reload
unfolding reload_full full_with store_full apply_full load_subscriptions load_config_with_retry
    retry_loop preserve_running_relay build_validator node_pairs new new_loop grpc_endpoints
    endpoints_of prune_to_endpoints prune_rounds remove clear set_idle_timeout
reload_full-IsPruned_example =
    reload_full-IsPruned (λ s. none) (λ s. none) plain encoders whole_text no_nodes no_files start
      after_reload 0 refl

abbrev two_requests : List MainEvent
two_requests = full_requested no_file ∷ quits ∷ subs_requested no_nodes ∷ []

main_loop-KeepsListener_example : KeepsListener start start
unfolding main_loop reload_full full_with load_config_with_retry retry_loop
main_loop-KeepsListener_example =
    main_loop-KeepsListener (λ s. none) (λ s. none) plain encoders whole_text two_requests no_files
      start start refl
