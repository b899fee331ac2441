-- ===== src/Parser/Formats.antt =====
-- subscription/parser.rs: the three formats of a link, and the lines of a subscription.
pub mod Nodes
pub mod RoundTrip
mod Tests
use tobira.Base.{
  ℕ, Bool, true, false, Option, none, some, String, List, [], ◌∷◌, ◌==◌, if◌then◌else◌, str_eq,
  code, Char, Result, ok, err, ◌>>=◌, ok_or, to_option, is_empty, codes,
}
use Prim.Native.String.{◌++◌ as append}
use tobira.Config.{PacketEncoding, plain_packets, packet_addr, xudp, parse}
use tobira.Http.{starts_with, strip_prefix}
use tobira.Node.{VMessNode}
use tobira.Parser.{
  ℤ, pos, V2rayNJson, ParseError, not_vmess, bad_url, bad_base64, bad_json, bad_payload, build_node,
}
use tobira.Parser.Fields.{Members, parse_i64, deserialize}

-- A URL as the library for URLs takes it apart.
pub record Url : Type 0 where
  pub username : String
  pub host : Option String
  pub port : Option ℕ
  pub path : String
  pub query : Option String
  pub query_pairs : List (String × String)
  pub fragment : Option String

-- The libraries: URLs, the four base64 engines with the check for UTF-8, JSON objects, and the functions
-- on texts that follow Unicode.
pub record Libraries : Type 0 where
  pub parse_url : String → Option Url
  pub standard : String → Option String
  pub standard_no_pad : String → Option String
  pub url_safe : String → Option String
  pub url_safe_no_pad : String → Option String
  pub parse_json : String → Option Members
  pub trim : String → String
  pub lowercase : String → String

-- A hash map of the pairs: the last pair with the key counts.
pub get : String → List (String × String) → Option String
get key [] = none
get key ((k, value) ∷ pairs) = elim (get key pairs) [
  | some later ↦ some later
  | none ↦ if str_eq key k then some value else none
]

-- `a.or_else(|| b)`, and `unwrap_or`.
abbrev pub or_else : Option String → Option String → Option String
or_else (some s) other = some s
or_else none other = other

abbrev pub unwrap_or : Option String → String → String
unwrap_or (some s) default = s
unwrap_or none default = default

abbrev port_number : Option ℕ → ℤ
port_number none = pos 0
port_number (some p) = pos p

abbrev number_or_zero : Option String → ℤ
number_or_zero none = pos 0
number_or_zero (some s) = elim (parse_i64 s) [ none ↦ pos 0 | some n ↦ n ]

abbrev encoding_or_default : Option String → PacketEncoding
encoding_or_default none = plain_packets
encoding_or_default (some s) = elim (parse s) [ none ↦ plain_packets | some e ↦ e ]

-- `trim_end_matches('=')`
pub trim_end_equals : String → String
trim_end_equals String.[] = ""
trim_end_equals (String.◌∷◌ c s) =
    let rest = trim_end_equals s in
    if (code c == b'=')
    then (if str_eq rest "" then "" else String.◌∷◌ c rest)
    else String.◌∷◌ c rest

-- `split_once`, at a character.
pub split_at : ℕ → String → Option (String × String)
split_at mark String.[] = none
split_at mark (String.◌∷◌ c s) =
    let rest = split_at mark s in
    if code c == mark
    then some ("", s)
    else elim rest [ none ↦ none | some (front, back) ↦ some (String.◌∷◌ c front, back) ]

abbrev pub in_front : Option (String × String) → String → String
in_front none default = default
in_front (some (front, back)) default = front

-- `str::lines`; the `\r` that it drops is dropped again by the `trim` of each line.
abbrev push_front : Char → List String → List String
push_front c [] = String.◌∷◌ c "" ∷ []
push_front c (line ∷ lines) = String.◌∷◌ c line ∷ lines

pub lines : String → List String
lines String.[] = []
lines (String.◌∷◌ c s) = let rest = lines s in if code c == 10 then "" ∷ rest else push_front c rest

pub parse_shadowrocket_udp : Option String → PacketEncoding
parse_shadowrocket_udp none = plain_packets
parse_shadowrocket_udp (some s) =
    if str_eq s "2" then packet_addr else if str_eq s "3" then xudp else plain_packets

pub url_format_fields : Url → V2rayNJson
unfolding get
url_format_fields u =
    let q = u.query_pairs in
    record {
      v = pos 0;
      ps = unwrap_or (or_else (get "remarks" q) (get "ps" q)) (unwrap_or u.fragment "");
      add = unwrap_or u.host "";
      port = port_number u.port;
      id = u.username;
      aid = number_or_zero (get "aid" q);
      net = unwrap_or (or_else (get "type" q) (get "net" q)) "tcp";
      type_ = "";
      host = unwrap_or (get "host" q) "";
      path = unwrap_or (or_else (get "path" q) (get "serviceName" q)) "";
      tls = unwrap_or (or_else (get "security" q) (get "tls" q)) "";
      sni = unwrap_or (get "sni" q) "";
      scy = unwrap_or (or_else (get "encryption" q) (get "scy" q)) "";
      packet_encoding =
          encoding_or_default (or_else (get "packetEncoding" q) (get "packetencoding" q));
    }

-- The fields of a Shadowrocket link: `u` is the link's URL, `authority` that of its payload.
pub shadowrocket_fields : Url → String → Url → V2rayNJson
unfolding get
shadowrocket_fields u security authority =
    let q = u.query_pairs in
    record {
      v = pos 0;
      ps = unwrap_or (or_else (get "remarks" q) (get "ps" q)) (unwrap_or u.fragment "");
      add = unwrap_or authority.host "";
      port = port_number authority.port;
      id = authority.username;
      aid = number_or_zero (or_else (get "alterId" q) (get "aid" q));
      net = unwrap_or (or_else (get "obfs" q) (get "type" q)) "tcp";
      type_ = "";
      host = "";
      path = unwrap_or (or_else (get "path" q) (get "serviceName" q)) "";
      tls = unwrap_or (or_else (get "tls" q) (get "security" q)) "";
      sni = unwrap_or (or_else (get "peer" q) (or_else (get "obfsParam" q) (get "sni" q))) "";
      scy = security;
      packet_encoding = plain_packets;
    }

module _ (lib : Libraries) where
  pub try_base64_decode : String → Option String
  unfolding trim_end_equals
  try_base64_decode s =
      let stripped = trim_end_equals s in
      or_else (lib.standard s) (
        or_else (lib.standard_no_pad stripped)
          (or_else (lib.url_safe s) (lib.url_safe_no_pad stripped)))

  pub parse_base64_json : String → Result ParseError VMessNode
  unfolding try_base64_decode
  parse_base64_json encoded = do
    json ← ok_or (try_base64_decode encoded) bad_base64
    members ← ok_or (lib.parse_json json) bad_json
    opts ← deserialize members
    build_node lib.lowercase opts

  pub parse_url_format : Url → Result ParseError VMessNode
  unfolding url_format_fields
  parse_url_format u = build_node lib.lowercase (url_format_fields u)

  abbrev pub with_encoding : PacketEncoding → VMessNode → Result ParseError VMessNode
  with_encoding e node = ok (record node { packet_encoding = e })

  pub parse_shadowrocket_format : String → Url → Result ParseError VMessNode
  unfolding try_base64_decode split_at shadowrocket_fields parse_shadowrocket_udp get
  parse_shadowrocket_format rest u = do
    decoded ← ok_or (try_base64_decode (in_front (split_at b'?' rest) u.path)) bad_base64
    parts ← ok_or (split_at b':' decoded) bad_payload
    authority ← ok_or (lib.parse_url (append "vmess://" parts.1)) bad_url
    node ← build_node lib.lowercase (shadowrocket_fields u parts.0 authority)
    with_encoding (parse_shadowrocket_udp (get "udp" u.query_pairs)) node

  abbrev pub choose_format : String → Url → Result ParseError VMessNode
  choose_format rest u =
      if str_eq u.username ""
      then elim u.query [
        | some query ↦ parse_shadowrocket_format rest u
        | none ↦ parse_base64_json rest
      ]
      else parse_url_format u

  -- `rest` is the link behind its "vmess://".
  pub parse_vmess_link : String → Result ParseError VMessNode
  unfolding parse_base64_json parse_url_format parse_shadowrocket_format
  parse_vmess_link link = elim (strip_prefix "vmess://" (lib.trim link)) [
    | none ↦ err not_vmess
    | some rest ↦ do u ← ok_or (lib.parse_url (lib.trim link)) bad_url; choose_format rest u
  ]

  pub keep_nodes : List String → List VMessNode
  unfolding parse_vmess_link
  keep_nodes [] = []
  keep_nodes (line ∷ more) =
      let rest = keep_nodes more in
      if starts_with (codes "vmess://") (codes (lib.trim line))
      then elim (parse_vmess_link (lib.trim line)) [ ok node ↦ node ∷ rest | err e ↦ rest ]
      else rest

  unfoldable pub parse_subscription : String → List VMessNode
  unfolding keep_nodes try_base64_decode lines
  parse_subscription body = keep_nodes (lines (unwrap_or (try_base64_decode (lib.trim body)) body))
