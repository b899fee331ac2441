-- ===== src/Parser/Fields/Rendered.antt =====
-- http/server.rs and subscription/parser.rs: the JSON link that the server renders is parsed to a node
-- that leads to the relay.
use tobira.Base.{
  ℕ, zero, suc, ◌++◌, ◌^◌, ◌%◌, ◌≤◌, ◌<◌, ◌≡◌, refl, Bool, true, false, none, some, String, List,
  [], ◌∷◌, arith, map, str_eq, if◌then◌else◌, ok,
}
use tobira.Config.{RelayNetwork, tcp, grpc, OutputConfig, plain_packets}
use tobira.Node.{VMessNode}
use tobira.Http.Links.{Encoders, is_grpc, or_empty, number, json_members}
use tobira.Parser.{pos, V2rayNJson, or_text, port_of, to_u32, make_node, build_node}
use tobira.Parser.Fields.{
  Members, text, string_or_int, parse_i64, parse_codes, parse_unsigned, digits, one_member,
  text_field, int_field, deserialize,
}
use tobira.Parser.Fields.Decimal.{string_or_int-decimal}

-- The members of an object whose values are all texts.
abbrev pub as_members : List (String × String) → Members
as_members pairs = map (λ m. (m.0, text m.1)) pairs

-- The fields that are read back from a rendered link.
abbrev pub fields_of : VMessNode → OutputConfig → RelayNetwork → String → V2rayNJson
fields_of node output network service_name = record {
  v = pos 2;
  ps = node.name;
  add = output.host;
  port = pos output.port;
  id = node.uuid;
  aid = pos node.alter_id;
  net = if is_grpc network then "grpc" else "tcp";
  type_ = "none";
  host = "";
  path = if is_grpc network then service_name else "";
  tls = if is_grpc network then "tls" else "";
  sni = if is_grpc network then or_empty output.sni else "";
  scy = node.security;
  packet_encoding = plain_packets;
}

-- The node that a client makes of the link.
abbrev pub relayed : VMessNode → OutputConfig → RelayNetwork → String → VMessNode
relayed node output network service_name = record {
  name = node.name;
  source = "";
  server = output.host;
  port = output.port;
  uuid = node.uuid;
  alter_id = node.alter_id;
  security = or_text node.security "auto";
  network = if is_grpc network then "grpc" else "tcp";
  tls = is_grpc network;
  sni = or_text (if is_grpc network then or_empty output.sni else "") output.host;
  grpc_service_name = if is_grpc network then some service_name else none;
  ws_path = none;
  ws_host = none;
  packet_encoding = plain_packets;
}

two : string_or_int (text "2") ≡ ok (pos 2)
unfolding string_or_int parse_i64 parse_codes parse_unsigned digits
two = refl

port_of-pos : (p : ℕ) → 1 ≤ p → p < 2 ^ 16 → port_of (pos p) ≡ some p
unfolding port_of
port_of-pos zero h small = absurd (omega arith)
port_of-pos (suc n) h small = ground arith

module _ (e : Encoders) (node : VMessNode) (output : OutputConfig) (service_name : String)
    (small_port : output.port < 2 ^ 16) (small_id : node.alter_id < 2 ^ 32) where
  abbrev grpc_members : List (String × String)
  grpc_members =
      ("v", "2")
      ∷ ("ps", node.name)
      ∷ ("add", output.host)
      ∷ ("port", number output.port)
      ∷ ("id", node.uuid)
      ∷ ("aid", number node.alter_id)
      ∷ ("net", "grpc")
      ∷ ("type", "none")
      ∷ ("host", "")
      ∷ ("path", service_name)
      ∷ ("tls", "tls")
      ∷ ("sni", or_empty output.sni)
      ∷ ("scy", node.security)
      ∷ []

  -- The members of a gRPC link, with or without the one that the parser passes over.
  read_grpc :
      (skips : Bool)
      → deserialize
          (as_members (if skips then grpc_members ++ ("insecure", "1") ∷ [] else grpc_members))
        ≡ ok (fields_of node output grpc service_name)
  unfolding deserialize text_field int_field one_member
  read_grpc true =
      rw
        (
          two,
          string_or_int-decimal output.port (omega arith),
          string_or_int-decimal node.alter_id (omega arith),
        )
        refl
  read_grpc false =
      rw
        (
          two,
          string_or_int-decimal output.port (omega arith),
          string_or_int-decimal node.alter_id (omega arith),
        )
        refl

  pub deserialize-json_members :
      (network : RelayNetwork)
      → deserialize (as_members (json_members e node output network service_name))
        ≡ ok (fields_of node output network service_name)
  unfolding deserialize text_field int_field one_member json_members
  deserialize-json_members tcp =
      rw
        (
          two,
          string_or_int-decimal output.port (omega arith),
          string_or_int-decimal node.alter_id (omega arith),
        )
        refl
  deserialize-json_members grpc = read_grpc output.skip_cert_verify

  pub build_node-fields_of :
      (lowercase : String → String) (network : RelayNetwork)
      → lowercase "grpc" ≡ "grpc"
      → lowercase "tcp" ≡ "tcp"
      → 1 ≤ output.port
      → str_eq output.host "" ≡ false
      → str_eq node.uuid "" ≡ false
      → build_node lowercase (fields_of node output network service_name)
        ≡ ok (relayed node output network service_name)
  unfolding build_node make_node to_u32
  build_node-fields_of lowercase tcp lower lower_tcp port host uuid =
      let kept : node.alter_id % 2 ^ 32 ≡ node.alter_id = omega arith in
      rw (port_of-pos output.port port small_port) (rw (host, uuid, lower_tcp, kept) refl)
  build_node-fields_of lowercase grpc lower lower_tcp port host uuid =
      let kept : node.alter_id % 2 ^ 32 ≡ node.alter_id = omega arith in
      rw (port_of-pos output.port port small_port) (rw (host, uuid, lower, kept) refl)
