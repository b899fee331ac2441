-- ===== src/Parser/Formats/Tests.antt =====
-- subscription/parser.rs: concrete runs, and the theorems at concrete inputs.
use tobira.Base.{
  false, codes, arith, ◌-◌, ◌^◌, ◌≡◌, refl, true, none, some, String, List, [], ◌∷◌, ok,
}
use tobira.Config.{OutputConfig, grpc, plain_packets}
use tobira.Http.Links.{Encoders, json_members, build_vmess_json_link}
use tobira.Node.{VMessNode}
use tobira.Http.{strip_prefix}
use tobira.Parser.{pos, negsuc, build_node}
use tobira.Parser.Fields.{large, parse_i64, parse_codes, parse_unsigned, digits, string_or_int}
use tobira.Parser.Fields.Rendered.{as_members, relayed}
use tobira.Parser.Formats.RoundTrip.{parse-build_vmess_json_link}
use tobira.Parser.Formats.{
  Url, Libraries, parse_vmess_link, parse_subscription, trim_end_equals, lines,
}

largest : parse_i64 "9223372036854775807" ≡ some (pos (2 ^ 63 - 1))
unfolding parse_i64 parse_codes parse_unsigned digits
largest = refl

too_large : parse_i64 "9223372036854775808" ≡ none
unfolding parse_i64 parse_codes parse_unsigned digits
too_large = refl

smallest : parse_i64 "-9223372036854775808" ≡ some (negsuc (2 ^ 63 - 1))
unfolding parse_i64 parse_codes parse_unsigned digits
smallest = refl

wrapped : string_or_int (large (2 ^ 64 - 1)) ≡ ok (negsuc 0)
unfolding string_or_int
wrapped = refl

two_lines : lines "a\n\nb\n" ≡ "a" ∷ "" ∷ "b" ∷ []
unfolding lines
two_lines = refl

no_padding : trim_end_equals "YQ==" ≡ "YQ"
unfolding trim_end_equals
no_padding = refl

abbrev pairs : List (String × String)
pairs = ("type", "grpc") ∷ ("security", "tls") ∷ ("serviceName", "tun") ∷ []

abbrev node_url : Url
node_url = record {
  username = "550e8400-e29b-41d4-a716-446655440000";
  host = some "node.example";
  port = some 443;
  path = "";
  query = some "type=grpc&security=tls&serviceName=tun";
  query_pairs = pairs;
  fragment = some "home";
}

-- Libraries that know one URL and no base64.
abbrev one_url : Libraries
one_url = record {
  parse_url = λ s. some node_url;
  standard = λ s. none;
  standard_no_pad = λ s. none;
  url_safe = λ s. none;
  url_safe_no_pad = λ s. none;
  parse_json = λ s. none;
  trim = λ s. s;
  lowercase = λ s. s;
}

abbrev home : VMessNode
home = record {
  name = "home";
  source = "";
  server = "node.example";
  port = 443;
  uuid = "550e8400-e29b-41d4-a716-446655440000";
  alter_id = 0;
  security = "auto";
  network = "grpc";
  tls = true;
  sni = "node.example";
  grpc_service_name = some "tun";
  ws_path = none;
  ws_host = none;
  packet_encoding = plain_packets;
}

abbrev encoders : Encoders
encoders = record {
  utf8 = codes;
  from_utf8 = λ bytes. "?";
  base64 = λ s. s;
  base64_url_safe = λ s. s;
  print_json = λ members. "{}";
  print_url = λ base pairs fragment. base;
  is_ipv6 = λ s. false;
}

abbrev public_output : OutputConfig
public_output = record {
  name = "out";
  host = "relay.example";
  port = 8443;
  sni = some "relay.example";
  skip_cert_verify = true;
  process = [];
}

abbrev opaque_url : Url
opaque_url = record {
  username = "";
  host = some "";
  port = none;
  path = "";
  query = none;
  query_pairs = [];
  fragment = none;
}

one_line : parse_subscription one_url "vmess://home\nss://x" ≡ home ∷ []
unfolding parse_subscription strip_prefix build_node
one_line = refl

-- Libraries that know one object.
abbrev one_object : Libraries
one_object = record {
  parse_url = λ s. some opaque_url;
  standard = λ s. some s;
  standard_no_pad = λ s. none;
  url_safe = λ s. none;
  url_safe_no_pad = λ s. none;
  parse_json = λ s. some (as_members (json_members encoders home public_output grpc "tun"));
  trim = λ s. s;
  lowercase = λ s. s;
}

parse-build_vmess_json_link_example :
    parse_vmess_link one_object (build_vmess_json_link encoders home public_output grpc "tun")
    ≡ ok (relayed home public_output grpc "tun")
parse-build_vmess_json_link_example =
    parse-build_vmess_json_link one_object encoders (λ s. refl) refl refl home public_output grpc
      "tun" opaque_url refl refl refl refl refl (omega arith) (omega arith) (omega arith) refl refl
