-- ===== src/Node.antt =====
-- subscription/parser.rs: `VMessNode`, a proxy node of a subscription.
use tobira.Base.{ℕ, Bool, Option, String}
use tobira.Config.{PacketEncoding}

pub record VMessNode : Type 0 where
  pub name : String
  pub source : String
  pub server : String
  pub port : ℕ
  pub uuid : String
  pub alter_id : ℕ
  pub security : String
  pub network : String
  pub tls : Bool
  pub sni : String
  pub grpc_service_name : Option String
  pub ws_path : Option String
  pub ws_host : Option String
  pub packet_encoding : PacketEncoding
