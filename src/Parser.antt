-- ===== src/Parser.antt =====
-- subscription/parser.rs: the nodes of a subscription, from links in three formats.
pub mod Fields
pub mod Formats
use tobira.Base.{
  ℕ, zero, suc, ◌+◌, ◌-◌, ◌*◌, ◌%◌, ◌^◌, Bool, true, false, not, ◌&&◌, ◌||◌, Option, none, some,
  String, List, [], ◌∷◌, leb, ltb, ◌==◌, if◌then◌else◌, str_eq, Result, ok, err, any, is_empty,
  codes,
}
use tobira.Config.{PacketEncoding}
use tobira.Node.{VMessNode}

-- The integers, for `i64`.
pub data ℤ : Type 0 where
  pos : ℕ → ℤ
  negsuc : ℕ → ℤ

-- The fields of the JSON format. `StringOrInt` is its number.
pub record V2rayNJson : Type 0 where
  pub v : ℤ
  pub ps : String
  pub add : String
  pub port : ℤ
  pub id : String
  pub aid : ℤ
  pub net : String
  pub type_ : String
  pub host : String
  pub path : String
  pub tls : String
  pub sni : String
  pub scy : String
  pub packet_encoding : PacketEncoding

pub data ParseError : Type 0 where
  not_vmess : ParseError
  bad_url : ParseError
  bad_base64 : ParseError
  bad_json : ParseError
  bad_payload : ParseError
  invalid_port : ℤ → ParseError
  missing_address : ParseError
  missing_uuid : ParseError

abbrev pub or_text : String → String → String
or_text s default = if str_eq s "" then default else s

-- `max(0) as u32`
pub to_u32 : ℤ → ℕ
to_u32 (pos n) = n % 2 ^ 32
to_u32 (negsuc n) = 0

-- The port as a number from 1 to 65535.
pub port_of : ℤ → Option ℕ
port_of (pos zero) = none
port_of (pos (suc n)) = if ltb 65535 (suc n) then none else some (suc n)
port_of (negsuc n) = none

abbrev pub only_if : Bool → String → Option String
only_if true s = some s
only_if false s = none

-- `lowercase` is `str::to_lowercase`, which follows Unicode.
module _ (lowercase : String → String) where
  -- The node, once the port, the address and the UUID have been found good.
  pub make_node : V2rayNJson → ℕ → VMessNode
  unfolding to_u32
  make_node opts port =
      let network = if str_eq opts.net "" then "tcp" else lowercase opts.net in
      record {
        name = opts.ps;
        source = "";
        server = opts.add;
        port = port;
        uuid = opts.id;
        alter_id = to_u32 opts.aid;
        security = or_text opts.scy "auto";
        network = network;
        tls = any (str_eq opts.tls) ("tls" ∷ "true" ∷ "1" ∷ []);
        sni = or_text opts.sni (or_text opts.host opts.add);
        grpc_service_name = only_if (str_eq network "grpc") opts.path;
        ws_path = only_if (str_eq network "ws") opts.path;
        ws_host = only_if (str_eq network "ws" && not (str_eq opts.host "")) opts.host;
        packet_encoding = opts.packet_encoding;
      }

  unfoldable pub build_node : V2rayNJson → Result ParseError VMessNode
  unfolding make_node port_of
  build_node opts = elim (port_of opts.port) [
    | none ↦ err (invalid_port opts.port)
    | some port ↦
        if str_eq opts.add ""
        then err missing_address
        else if str_eq opts.id ""
        then err missing_uuid
        else ok (make_node opts port)
  ]
