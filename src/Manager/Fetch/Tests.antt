-- ===== src/Manager/Fetch/Tests.antt =====
-- subscription/manager.rs: concrete reloads, and the theorems at concrete inputs.
use tobira.Base.{
  ◌≡◌, refl, sym, ap, true, false, none, some, String, Bool, [], ◌∷◌, All, ok, str_eq, arith,
  eq_iff, if◌then◌else◌, err,
}
use tobira.Config.{
  SubscriptionSource, SubscriptionConfig, default_subscription, ProcessStep, plain_packets,
}
use tobira.Node.{VMessNode}
use tobira.Process.{Regexes, compile_patterns, apply_pipeline}
use tobira.Process.Blind.{IsBlind}
use tobira.Process.Preserves.{IsTarget}
use tobira.Http.{strip_prefix}
use tobira.Parser.{build_node}
use tobira.Parser.Formats.{Libraries, parse_subscription}
use tobira.Manager.Cache.{CacheMap, cached}
use tobira.Manager.Cache as Cache
use tobira.Manager.Cache.Kept.{Entries, AnyName, IsSourced}
use tobira.Manager.Fetch.{
  Files, Client, Storage, SubscriptionManager, new, reload, loaded, fetch_source, first_cache,
  load_cache, save_cache, no_file,
}
use tobira.Manager.Fetch.Sourced.{reload-IsSourced}
use tobira.Manager.Fetch.Blind.{fetch_source-blind}
use tobira.Manager.Fetch.Saved.{reload-remembers}

-- Libraries that know one URL and no base64.
abbrev one_url : Libraries
one_url = record {
  parse_url = λ s. some (record {
    username = "550e8400-e29b-41d4-a716-446655440000";
    host = some "10.0.0.1";
    port = some 443;
    path = "";
    query = none;
    query_pairs = [];
    fragment = some "home";
  });
  standard = λ s. none;
  standard_no_pad = λ s. none;
  url_safe = λ s. none;
  url_safe_no_pad = λ s. none;
  parse_json = λ s. none;
  trim = λ s. s;
  lowercase = λ s. s;
}

abbrev whole_text : Regexes
whole_text = record {
  Regex = String;
  compile = λ p. some p;
  is_match = λ re text. str_eq re text;
  replace_all = λ re text replacement. replacement;
}

abbrev from_file : SubscriptionSource
from_file = record {
  name = "near";
  url = none;
  path = some "nodes.txt";
  user_agent = "tobira";
  process = [];
}

abbrev config : SubscriptionConfig
config = record default_subscription { cache_file = some "cache.json"; sources = from_file ∷ [] }

abbrev home : VMessNode
home = record {
  name = "home";
  source = "near";
  server = "10.0.0.1";
  port = 443;
  uuid = "550e8400-e29b-41d4-a716-446655440000";
  alter_id = 0;
  security = "auto";
  network = "tcp";
  tls = false;
  sni = "10.0.0.1";
  grpc_service_name = none;
  ws_path = none;
  ws_host = none;
  packet_encoding = plain_packets;
}

abbrev one_cached : CacheMap
one_cached = ("near", home ∷ []) ∷ []

abbrev files : Files
files path =
    if str_eq path "nodes.txt"
    then some "vmess://home"
    else if str_eq path "cache.json"
    then some "cache"
    else none

abbrev no_network : Client
no_network = record { builds = λ agent. true; sends = λ agent url. none }

-- A store that knows one cache; the file with the nodes is lost when it writes.
abbrev storage : Storage
storage = record {
  to_json = λ cache. some "cache";
  from_json = λ text. some one_cached;
  write = λ path text files other. if str_eq other path then some text else none;
}

abbrev no_address : String → Bool
no_address text = false

fetched :
    fetch_source one_url whole_text no_network files from_file
    ≡ ok (record home { source = "" } ∷ [])
unfolding fetch_source parse_subscription apply_pipeline strip_prefix build_node
fetched = refl

abbrev manager : SubscriptionManager
manager = record { config = config; nodes_by_source = []; all_nodes = [] }

started : new config ≡ manager
unfolding new
started = refl

-- What writes the cache loses the file with the nodes.
lost :
    fetch_source one_url whole_text no_network
      (reload no_address no_address one_url whole_text no_network storage files manager).1
      from_file
    ≡ err no_file
unfolding fetch_source reload save_cache
lost = refl

cached-IsTarget : Entries (AnyName IsTarget) (first_cache storage files (some "cache.json"))
unfolding load_cache
cached-IsTarget = (
  (
    (
      omega arith,
      omega arith,
      λ e. ground (arith, eq_iff "10.0.0.1" ""),
      λ e. ground (arith, eq_iff "550e8400-e29b-41d4-a716-446655440000" ""),
    ),
    tt,
  ),
  tt,
)

reload-IsSourced_example :
    All
      (IsSourced IsTarget config.sources)
      (reload no_address no_address one_url whole_text no_network storage files manager).0.all_nodes
    × Entries
        (AnyName IsTarget)
        (loaded no_address no_address one_url whole_text no_network storage files config).cache
reload-IsSourced_example =
    reload-IsSourced one_url whole_text no_network no_address no_address storage files manager
      cached-IsTarget

-- It removes what comes from the source "near".
abbrev remove_near : ProcessStep
remove_near = record {
  filter = [];
  filter_source = "near" ∷ [];
  invert = false;
  remove = true;
  rename = [];
  remove_emoji = false;
  override_security = none;
  packet_encoding = none;
}

remove_near-IsBlind : IsBlind whole_text remove_near
unfolding compile_patterns
remove_near-IsBlind = (refl, refl, refl)

fetch_source-blind_example :
    fetch_source one_url whole_text no_network files
      (record from_file { process = remove_near ∷ [] })
    ≡ fetch_source one_url whole_text no_network files (record from_file { process = [] })
fetch_source-blind_example =
    fetch_source-blind one_url whole_text no_network files from_file [] [] remove_near
      remove_near-IsBlind

saved :
    (loaded no_address no_address one_url whole_text no_network storage files config).cache
    ≡ one_cached
unfolding loaded fetch_source parse_subscription apply_pipeline strip_prefix build_node Cache.reload
    load_cache
saved = refl

reload-remembers_example :
    let (first, files') =
      reload no_address no_address one_url whole_text no_network storage files manager in
    cached "near"
      (reload no_address no_address one_url whole_text no_network storage files'
        first).0.nodes_by_source
    ≡ cached "near" first.nodes_by_source
reload-remembers_example =
    reload-remembers no_address no_address one_url whole_text no_network no_network storage files
      manager "cache.json" [] [] from_file no_file refl ("cache", refl, ap some (sym saved), refl)
      refl tt tt lost
