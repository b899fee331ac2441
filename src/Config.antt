-- ===== src/Config.antt =====
-- config.rs: the configuration, what its fields default to, and the checks made when it is read.
pub mod Encoding
pub mod Sources
mod Tests
use tobira.Base.{
  ℕ, ◌+◌, Bool, true, false, ◌&&◌, not, Option, none, some, String, List, [], ◌∷◌, map, codes, leb,
  code_eq, if◌then◌else◌, Result, ok, err,
}

pub data RelayNetwork : Type 0 where
  tcp : RelayNetwork
  grpc : RelayNetwork

pub data PacketEncoding : Type 0 where
  plain_packets : PacketEncoding
  packet_addr : PacketEncoding
  xudp : PacketEncoding

pub as_str : PacketEncoding → String
as_str plain_packets = ""
as_str packet_addr = "packetaddr"
as_str xudp = "xudp"

-- `to_ascii_lowercase`, on a code point.
unfoldable pub to_lower : ℕ → ℕ
to_lower c = if leb b'A' c && leb c b'Z' then c + 32 else c

-- Whether the text is one of the names.
pub is_one_of : List ℕ → List String → Bool
is_one_of text [] = false
is_one_of text (name ∷ names) =
    let rest = is_one_of text names in if code_eq text (codes name) then true else rest

pub parse : String → Option PacketEncoding
unfolding is_one_of to_lower
parse value =
    let text = map to_lower (codes value) in
    if is_one_of text ("" ∷ "default" ∷ "none" ∷ [])
    then some plain_packets
    else if is_one_of text ("packetaddr" ∷ "packet_addr" ∷ "packet-addr" ∷ [])
    then some packet_addr
    else if is_one_of text ("xudp" ∷ [])
    then some xudp
    else none

pub data ConfigError : Type 0 where
  bad_packet_encoding : ConfigError
  url_and_path : ConfigError
  neither_url_nor_path : ConfigError

-- `Deserialize for PacketEncoding`, on the text of the field.
pub deserialize_encoding : String → Result ConfigError PacketEncoding
unfolding parse
deserialize_encoding value = elim (parse value) [
  | none ↦ err bad_packet_encoding
  | some encoding ↦ ok encoding
]

pub record ProcessStep : Type 0 where
  pub filter : List String
  pub filter_source : List String
  pub invert : Bool
  pub remove : Bool
  pub rename : List (String × String)
  pub remove_emoji : Bool
  pub override_security : Option String
  pub packet_encoding : Option PacketEncoding

pub record RelayConfig : Type 0 where
  pub listen : String
  pub port : ℕ
  pub network : RelayNetwork
  pub service_name : String
  pub idle_timeout : ℕ
  pub grpc_pool_idle_timeout : ℕ

pub record HttpUser : Type 0 where
  pub username : String
  pub password : String
  pub outputs : Option (List String)

pub record OutputConfig : Type 0 where
  pub name : String
  pub host : String
  pub port : ℕ
  pub sni : Option String
  pub skip_cert_verify : Bool
  pub process : List ProcessStep

pub record HttpConfig : Type 0 where
  pub listen : String
  pub port : ℕ
  pub users : List HttpUser
  pub outputs : List OutputConfig

pub record SubscriptionSource : Type 0 where
  pub name : String
  pub url : Option String
  pub path : Option String
  pub user_agent : String
  pub process : List ProcessStep

pub record SubscriptionConfig : Type 0 where
  pub cache_file : Option String
  pub update_interval : ℕ
  pub sources : List SubscriptionSource
  pub deduplication : String

pub record Config : Type 0 where
  pub log_level : String
  pub relay : RelayConfig
  pub http : HttpConfig
  pub subscription : SubscriptionConfig

abbrev pub default_relay : RelayConfig
default_relay = record {
  listen = "[::]";
  port = 10808;
  network = tcp;
  service_name = "GunService";
  idle_timeout = 0;
  grpc_pool_idle_timeout = 0;
}

abbrev pub default_http : HttpConfig
default_http = record { listen = "[::]"; port = 8080; users = []; outputs = [] }

abbrev pub default_subscription : SubscriptionConfig
default_subscription = record {
  cache_file = none;
  update_interval = 0;
  sources = [];
  deduplication = "rename";
}

-- The white space that `trim` removes. A text of white space only counts as not set.
abbrev pub is_blank : (ℕ → Bool) → List ℕ → Bool
is_blank is_space [] = true
is_blank is_space (c ∷ cs) = is_space c && is_blank is_space cs

-- `Option::filter(|s| !s.trim().is_empty())`
pub set_text : (ℕ → Bool) → Option String → Option String
set_text is_space none = none
set_text is_space (some s) = if not (is_blank is_space (codes s)) then some s else none

-- The `match` on which of the two are set.
pub choose_origin :
    SubscriptionSource → Option String → Option String → Result ConfigError SubscriptionSource
choose_origin raw (some url) none = ok (record raw { url = some url; path = none })
choose_origin raw none (some path) = ok (record raw { url = none; path = some path })
choose_origin raw (some url) (some path) = err url_and_path
choose_origin raw none none = err neither_url_nor_path

-- `Deserialize for SubscriptionSource`, on the fields as they were read.
pub deserialize_source : (ℕ → Bool) → SubscriptionSource → Result ConfigError SubscriptionSource
unfolding set_text choose_origin
deserialize_source is_space raw =
    choose_origin raw (set_text is_space raw.url) (set_text is_space raw.path)

-- The operations of `std::path` on the texts of paths.
pub record Paths : Type 0 where
  pub parent : String → Option String
  pub is_absolute : String → Bool
  pub join : String → String → String

-- `unwrap_or_else(|| Path::new(""))`
abbrev pub or_empty : Option String → String
or_empty none = ""
or_empty (some dir) = dir

module _ (paths : Paths) where
  open paths use {parent, is_absolute, join}

  -- One round of the loop of `resolve_local_source_paths`, on the path of a source.
  pub resolve_path : String → Option String → Option String
  resolve_path config_dir none = none
  resolve_path config_dir (some path) =
      if is_absolute path then some path else some (join config_dir path)

  pub resolve_source : String → SubscriptionSource → SubscriptionSource
  unfolding resolve_path
  resolve_source config_dir source = record source { path = resolve_path config_dir source.path }

  pub resolve_local_source_paths : Config → String → Config
  unfolding resolve_source
  resolve_local_source_paths config config_path =
      let config_dir = or_empty (parent config_path) in
      let resolved = map (resolve_source config_dir) config.subscription.sources in
      record config { subscription = record config.subscription { sources = resolved } }

  -- `load`, on the content as `toml` reads it.
  pub load : (String → Option Config) → String → Option Config
  unfolding resolve_local_source_paths
  load read path = elim (read path) [
    | none ↦ none
    | some config ↦ some (resolve_local_source_paths config path)
  ]
