-- ===== src/Parser/Formats/RoundTrip.antt =====
-- http/server.rs and subscription/parser.rs: a JSON link that the server hands out is parsed to the node
-- that leads to the relay.
use Prim.Native.String.{◌++◌ as append}
use Prim.Native.String.append as laws
use tobira.Base.{
  ◌^◌, ◌≤◌, ◌<◌, ◌≡◌, refl, ◌∙◌, true, false, none, some, String, str_eq, ok, code, ◌==◌, arith,
}
use tobira.Config.{RelayNetwork, OutputConfig}
use tobira.Node.{VMessNode}
use tobira.Http.{strip_prefix}
use tobira.Http.Links.{Encoders, json_members, build_vmess_json_link}
use tobira.Parser.Fields.Rendered.{
  as_members, deserialize-json_members, relayed, build_node-fields_of,
}
use tobira.Parser.Formats.{
  Url, Libraries, try_base64_decode, parse_base64_json, choose_format, parse_vmess_link,
}

strip_prefix-append : (p s : String) → strip_prefix p (append p s) ≡ some s
unfolding strip_prefix
strip_prefix-append String.[] s = rw (laws.nil s) refl
strip_prefix-append (String.◌∷◌ c p) s =
    let same : (code c == code c) ≡ true = ground arith in
    let starts : append (String.◌∷◌ c p) s ≡ String.◌∷◌ c (append p s) = λ i. laws.cons c p s i in
    rw starts (rw same (strip_prefix-append p s))

module _ (lib : Libraries) (e : Encoders)
    (decodes : (s : String) → lib.standard (e.base64 s) ≡ some s)
    (lower_grpc : lib.lowercase "grpc" ≡ "grpc") (lower_tcp : lib.lowercase "tcp" ≡ "tcp") where
  parse_base64_json-rendered :
      (node : VMessNode) (output : OutputConfig) (network : RelayNetwork) (service_name : String)
      → lib.parse_json (e.print_json (json_members e node output network service_name))
        ≡ some (as_members (json_members e node output network service_name))
      → 1 ≤ output.port
      → output.port < 2 ^ 16
      → node.alter_id < 2 ^ 32
      → str_eq output.host "" ≡ false
      → str_eq node.uuid "" ≡ false
      → parse_base64_json lib
          (e.base64 (e.print_json (json_members e node output network service_name)))
        ≡ ok (relayed node output network service_name)
  unfolding parse_base64_json try_base64_decode
  parse_base64_json-rendered node output network service_name reads_json low port id host uuid =
      let members = json_members e node output network service_name in
      rw (decodes (e.print_json members)) (
        rw reads_json (
          rw (deserialize-json_members e node output service_name port id network) (
            build_node-fields_of e node output service_name port id lib.lowercase network lower_grpc
              lower_tcp low host uuid)))

  split_link :
      (node : VMessNode) (output : OutputConfig) (network : RelayNetwork) (service_name : String)
      → strip_prefix "vmess://" (build_vmess_json_link e node output network service_name)
        ≡ some (e.base64 (e.print_json (json_members e node output network service_name)))
  unfolding build_vmess_json_link
  split_link node output network service_name =
      strip_prefix-append "vmess://"
        (e.base64 (e.print_json (json_members e node output network service_name)))

  -- A JSON link that the server hands out is parsed to a node that leads to the relay: to the output's
  -- host and port, with the name, the UUID, the alter id and the encryption of the node it was made of.
  -- Its packet encoding is the default one. The libraries are taken to read back what they wrote and to
  -- leave "grpc" and "tcp" as they are, the link to be a URL without white space around it, user or query,
  -- the host and the UUID not to be empty, the port to be from 1 to 65535, the alter id to have 32 bits.
  pub parse-build_vmess_json_link :
      (node : VMessNode) (output : OutputConfig) (network : RelayNetwork) (service_name : String)
      (u : Url)
      → lib.trim (build_vmess_json_link e node output network service_name)
        ≡ build_vmess_json_link e node output network service_name
      → lib.parse_url (build_vmess_json_link e node output network service_name) ≡ some u
      → lib.parse_json (e.print_json (json_members e node output network service_name))
        ≡ some (as_members (json_members e node output network service_name))
      → str_eq u.username "" ≡ true
      → u.query ≡ none
      → 1 ≤ output.port
      → output.port < 2 ^ 16
      → node.alter_id < 2 ^ 32
      → str_eq output.host "" ≡ false
      → str_eq node.uuid "" ≡ false
      → parse_vmess_link lib (build_vmess_json_link e node output network service_name)
        ≡ ok (relayed node output network service_name)
  unfolding parse_vmess_link
  parse-build_vmess_json_link node output network service_name u trims is_url reads_json user query
        low port id host uuid =
      let encoded = e.base64 (e.print_json (json_members e node output network service_name)) in
      let rest : strip_prefix "vmess://" (build_vmess_json_link e node output network service_name)
          ≡ some encoded =
        split_link node output network service_name in
      let chosen : choose_format lib encoded u ≡ parse_base64_json lib encoded =
        rw user (rw query refl) in
      rw (trims, parse_vmess_link)
        (rw (rest, parse_vmess_link)
          (rw (trims, is_url)
            (chosen
              ∙ parse_base64_json-rendered node output network service_name reads_json low port id
                  host uuid)))
