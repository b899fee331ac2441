-- ===== src/Entry/Tests.antt =====
-- main.rs: concrete starts and events, and the theorems at concrete inputs.
use tobira.Base.{
  ℕ, ◌≡◌, refl, inr, true, false, Option, none, some, String, List, [], ◌∷◌, ◌++◌, suc, ok, codes,
  str_eq, append_assoc, if◌then◌else◌,
}
use tobira.Auth.{Crypto}
use tobira.Config.{Config, Paths, default_relay, default_http, default_subscription}
use tobira.Process.{Regexes}
use tobira.Validator.{v4, SocketAddr}
use tobira.Validator as Validator
use tobira.Manager.{build_validator, node_pairs}
use tobira.Http.Links.{Encoders}
use tobira.Relay.Core.{from_config}
use tobira.Reload.Updates.{Outside, log_filter, load_subscriptions}
use tobira.Entry.{Started, initial, start, spawn_subscription_timer}
use tobira.Entry.Again.{ChangesNothing, start-reload_full}
use tobira.Entry.Watch.{create, access, Event, event, fails, timed_out, watch_file, watch_loop}
use tobira.Entry.Watch.Asks.{watch_loop-asks}

abbrev plain : Crypto
plain = record {
  Sha256 = List ℕ;
  sha_new = [];
  sha_update = λ s bytes. s ++ bytes;
  sha_finalize = λ s. s;
  sha_update_append = λ s a b. append_assoc s a b;
  md5 = λ bytes. bytes;
  aes_decrypt = λ key block. block;
  crc32 = λ bytes. 0;
}

abbrev encoders : Encoders
encoders = record {
  utf8 = codes;
  from_utf8 = λ bytes. "?";
  base64 = λ s. s;
  base64_url_safe = λ s. s;
  print_json = λ members. "{}";
  print_url = λ base pairs fragment. base;
  is_ipv6 = λ s. false;
}

abbrev whole_text : Regexes
whole_text = record {
  Regex = String;
  compile = λ p. some p;
  is_match = λ re text. str_eq re text;
  replace_all = λ re text replacement. replacement;
}

abbrev hourly : Config
hourly = record {
  log_level = "info";
  relay = default_relay;
  http = default_http;
  subscription = record default_subscription { update_interval = 3600 };
}

abbrev outside : Outside
outside = record {
  reads_config = λ n. ok hourly;
  fetches = λ config. some [];
  saves = λ config files. files;
  rust_log = some "debug";
  takes_filter = λ level. true;
}

abbrev any_addr : String → Option SocketAddr
any_addr text = some (record { ip = v4 0; port = 443 })

abbrev no_uri : String → Option String
no_uri text = none

abbrev started : Started
started = record {
  shared =
      initial any_addr no_uri plain encoders whole_text "debug" hourly
        (record { entries = [] }, []);
  relay_addr = record { ip = v4 0; port = 443 };
  http_addr = record { ip = v4 0; port = 443 };
  inbound = from_config default_relay;
  subscription_timer = spawn_subscription_timer hourly;
  files = λ path. none;
}

starts : start any_addr no_uri plain encoders whole_text true outside (λ path. none) ≡ ok started
unfolding start log_filter load_subscriptions build_validator node_pairs Validator.new
    Validator.new_loop
starts = refl

start-reload_full_example :
    ChangesNothing any_addr no_uri plain encoders whole_text outside (λ path. none) started.shared
start-reload_full_example =
    start-reload_full any_addr no_uri plain encoders whole_text true outside (λ path. none) started
      starts refl

abbrev unix : Paths
unix = record {
  parent = λ p. some "/etc/tobira";
  is_absolute = λ p. str_eq p "/etc/tobira/config.toml";
  join = λ dir p. if str_eq p "config.toml" then "/etc/tobira/config.toml" else "/etc/tobira/other";
}

-- An editor writes another file and moves it over the configuration.
abbrev moved_over : Event
moved_over = record { paths = "config.toml~" ∷ "config.toml" ∷ []; kind = create }

abbrev looked_at : Event
looked_at = record { paths = "/etc/tobira/config.toml" ∷ []; kind = access }

two_changes :
    watch_file unix str_eq true true (some "/etc/tobira") "config.toml" (
      event moved_over
      ∷ event looked_at
      ∷ timed_out false
      ∷ event moved_over
      ∷ timed_out true
      ∷ event moved_over
      ∷ [])
    ≡ 2
unfolding watch_file
two_changes = refl

watch_loop-asks_example :
    watch_loop unix str_eq "/etc/tobira/config.toml" (fails ∷ event moved_over ∷ [])
    ≡ suc (watch_loop unix str_eq "/etc/tobira/config.toml" (fails ∷ []))
watch_loop-asks_example =
    watch_loop-asks unix str_eq "/etc/tobira/config.toml" "config.toml" moved_over
      ("config.toml~" ∷ []) [] (fails ∷ []) [] (tt, tt) refl (inr (refl, refl)) tt
