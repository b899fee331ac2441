-- ===== src/Http/Links.antt =====
-- http/server.rs: the links that an output is rendered to. The JSON and the URL library are parameters.
pub mod Percent
pub mod Hiding
use Prim.Native.Nat.{bit_and}
use Prim.Native.String.{◌++◌ as append}
use mathlib.Core.Option
use tobira.Base.{
  ℕ, suc, code, ◌*◌, ◌/◌, ◌%◌, Bool, true, false, ◌&&◌, ◌||◌, Option, none, some, String, List, [],
  ◌∷◌, ◌++◌, map, codes, leb, ◌==◌, str_eq, is_empty, get_or, if◌then◌else◌,
}
use tobira.Config.{
  RelayNetwork, tcp, grpc, PacketEncoding, plain_packets, packet_addr, xudp, OutputConfig, HttpUser,
}
use tobira.Node.{VMessNode}
use tobira.Process.{Regexes, apply_pipeline}
use tobira.Process.Dedup.{decimal}
use tobira.Http.{RenderedOutput, HttpState}

abbrev pub is_alphanumeric : ℕ → Bool
is_alphanumeric b =
    (leb b'0' b && leb b b'9') || (leb b'A' b && leb b b'Z') || (leb b'a' b && leb b b'z')

pub is_unreserved : ℕ → Bool
is_unreserved b = is_alphanumeric b || b == b'-' || b == b'.' || b == b'_' || b == b'~'

abbrev pub hex_digits : List ℕ
hex_digits = codes "0123456789ABCDEF"

-- On the bytes of the text; `byte >> 4` is `byte / 16`.
pub percent_encode_query_component : List ℕ → List ℕ
unfolding is_unreserved
percent_encode_query_component [] = []
percent_encode_query_component (byte ∷ bytes) =
    let rest = percent_encode_query_component bytes in
    if is_unreserved byte
    then byte ∷ rest
    else b'%' ∷ get_or hex_digits (byte / 16) 0 ∷ get_or hex_digits (bit_and byte 0x0f) 0 ∷ rest

pub push_query_pair : List ℕ → List ℕ → List ℕ → List ℕ
unfolding percent_encode_query_component
push_query_pair query key value =
    let started = if is_empty query then query else query ++ b'&' ∷ [] in
    ((started ++ percent_encode_query_component key) ++ b'=' ∷ [])
    ++ percent_encode_query_component value

abbrev pub shadowrocket_udp : PacketEncoding → String
shadowrocket_udp plain_packets = "1"
shadowrocket_udp packet_addr = "2"
shadowrocket_udp xudp = "3"

-- The libraries for UTF-8, Base64, JSON and URLs, and the parser of IPv6 addresses. A URL is printed of
-- its base, its query pairs and its fragment.
pub record Encoders : Type 0 where
  pub utf8 : String → List ℕ
  pub from_utf8 : List ℕ → String
  pub base64 : String → String
  pub base64_url_safe : String → String
  pub print_json : List (String × String) → String
  pub print_url : String → List (String × String) → Option String → String
  pub is_ipv6 : String → Bool

abbrev pub is_grpc : RelayNetwork → Bool
is_grpc tcp = false
is_grpc grpc = true

-- `unwrap_or("")`
abbrev pub or_empty : Option String → String
or_empty none = ""
or_empty (some s) = s

-- `to_string` of a number.
abbrev pub number : ℕ → String
number n = decimal (suc n) n ""

-- The text without its last character, if that is a `]`.
pub strip_bracket : String → Option String
strip_bracket String.[] = none
strip_bracket (String.◌∷◌ c String.[]) = if code c == b']' then some "" else none
strip_bracket (String.◌∷◌ c (String.◌∷◌ d s)) =
    Option.map (λ rest. String.◌∷◌ c rest) (strip_bracket (String.◌∷◌ d s))

-- The host between its brackets, or else the host.
pub trim_brackets : String → String
unfolding strip_bracket
trim_brackets String.[] = ""
trim_brackets (String.◌∷◌ c s) =
    if code c == b'['
    then elim (strip_bracket s) [ none ↦ String.◌∷◌ c s | some inside ↦ inside ]
    else String.◌∷◌ c s

module _ (e : Encoders) where
  open e use {utf8, from_utf8, base64, base64_url_safe, print_json, print_url, is_ipv6}

  pub format_url_host : String → String
  unfolding trim_brackets
  format_url_host host =
      let trimmed = trim_brackets host in
      if is_ipv6 trimmed then append "[" (append trimmed "]") else host

  -- The members of the JSON object, all of them texts.
  unfoldable pub json_members :
      VMessNode → OutputConfig → RelayNetwork → String → List (String × String)
  unfolding decimal
  json_members node output network service_name =
      let members =
        ("v", "2")
        ∷ ("ps", node.name)
        ∷ ("add", output.host)
        ∷ ("port", number output.port)
        ∷ ("id", node.uuid)
        ∷ ("aid", number node.alter_id)
        ∷ ("net", if is_grpc network then "grpc" else "tcp")
        ∷ ("type", "none")
        ∷ ("host", "")
        ∷ ("path", if is_grpc network then service_name else "")
        ∷ ("tls", if is_grpc network then "tls" else "")
        ∷ ("sni", if is_grpc network then or_empty output.sni else "")
        ∷ ("scy", node.security)
        ∷ [] in
      if is_grpc network && output.skip_cert_verify
      then members ++ ("insecure", "1") ∷ []
      else members

  unfoldable pub build_vmess_json_link : VMessNode → OutputConfig → RelayNetwork → String → String
  unfolding json_members
  build_vmess_json_link node output network service_name =
      append "vmess://" (base64 (print_json (json_members node output network service_name)))

  pub url_pairs : VMessNode → OutputConfig → RelayNetwork → String → List (String × String)
  url_pairs node output tcp service_name =
      ("type", "tcp") ∷ ("security", "none") ∷ ("encryption", node.security) ∷ []
  url_pairs node output grpc service_name =
      (("type", "grpc") ∷ ("serviceName", service_name) ∷ ("security", "tls") ∷ [])
      ++ (elim output.sni [ none ↦ [] | some sni ↦ ("sni", sni) ∷ [] ])
      ++ ("encryption", node.security) ∷ []

  -- A base that is no URL, which would be a panic, is left to `print_url`.
  pub build_vmess_url_link : VMessNode → OutputConfig → RelayNetwork → String → String
  unfolding url_pairs format_url_host decimal
  build_vmess_url_link node output network service_name =
      let host = format_url_host output.host in
      let base =
        append "vmess://"
          (append node.uuid (append "@" (append host (append ":" (number output.port))))) in
      print_url base (url_pairs node output network service_name)
        (if str_eq node.name "" then none else some node.name)

  -- Pairs that are pushed one after the other.
  pub push_all : List ℕ → List (String × String) → List ℕ
  unfolding push_query_pair
  push_all query [] = query
  push_all query ((key, value) ∷ pairs) =
      push_all (push_query_pair query (utf8 key) (utf8 value)) pairs

  abbrev pub remarks : VMessNode → List (String × String)
  remarks node = if str_eq node.name "" then [] else ("remarks", node.name) ∷ []

  pub shadowrocket_pairs : VMessNode → OutputConfig → RelayNetwork → String → List (String × String)
  unfolding decimal
  shadowrocket_pairs node output tcp service_name =
      remarks node
      ++ ("obfs", "tcp")
        ∷ ("tls", "0")
        ∷ ("udp", shadowrocket_udp node.packet_encoding)
        ∷ ("alterId", number node.alter_id)
        ∷ []
  shadowrocket_pairs node output grpc service_name =
      (("path", service_name) ∷ [])
      ++ remarks node
      ++ (("obfs", "grpc") ∷ ("tls", "1") ∷ [])
      ++ (elim output.sni [ none ↦ [] | some sni ↦ ("obfsParam", sni) ∷ ("peer", sni) ∷ [] ])
      ++ ("udp", shadowrocket_udp node.packet_encoding) ∷ ("alterId", number node.alter_id) ∷ []

  pub build_shadowrocket_link : VMessNode → OutputConfig → RelayNetwork → String → String
  unfolding shadowrocket_pairs push_all format_url_host decimal
  build_shadowrocket_link node output network service_name =
      let host = format_url_host output.host in
      let payload = append node.security (
        append ":"
          (append node.uuid (append "@" (append host (append ":" (number output.port)))))) in
      let query = push_all [] (shadowrocket_pairs node output network service_name) in
      append "vmess://" (append (base64_url_safe payload) (append "?" (from_utf8 query)))

  module _ (r : Regexes) where
    pub render_output : OutputConfig → List VMessNode → RelayNetwork → String → RenderedOutput
    unfolding build_vmess_json_link build_vmess_url_link build_shadowrocket_link
    render_output output nodes network service_name =
        let processed = apply_pipeline r nodes output.process in
        record {
          name = output.name;
          v2rayn_links = map (λ n. build_vmess_json_link n output network service_name) processed;
          standard_links = map (λ n. build_vmess_url_link n output network service_name) processed;
          shadowrocket_links =
              map (λ n. build_shadowrocket_link n output network service_name) processed;
        }

    -- `HttpState::new`
    pub new_state :
        List HttpUser → List OutputConfig → List VMessNode → RelayNetwork → String → HttpState
    unfolding render_output
    new_state users outputs nodes network service_name = record {
      users = users;
      outputs = map (λ o. render_output o nodes network service_name) outputs;
    }
