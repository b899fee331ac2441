-- ===== src/Manager.antt =====
-- subscription/manager.rs: the routing table made of the nodes. The parsers of socket addresses and of
-- URIs are parameters.
pub mod Table
pub mod Cache
pub mod Fetch
mod Tests
use Prim.Native.String.{◌++◌ as append}
use tobira.Base.{
  ℕ, suc, Bool, Option, none, some, String, List, [], ◌∷◌, Result, ok, err, ◌>>=◌, str_eq,
  if◌then◌else◌, false, ok_or,
}
use tobira.Node.{VMessNode}
use tobira.Process.Dedup.{decimal}
use tobira.Auth.{Crypto}
use tobira.Validator
use tobira.Validator.{SocketAddr, Transport, tcp, grpc, Upstream, Validator, TableError}

pub data BuildError : Type 0 where
  bad_address : String → BuildError
  bad_uri : String → BuildError
  bad_table : TableError → BuildError

-- `unwrap_or_default`
abbrev pub or_empty : Option String → String
or_empty none = ""
or_empty (some s) = s

abbrev number : ℕ → String
number n = decimal (suc n) n ""

-- `format!("{}:{}", node.server, node.port)`
pub node_addr : VMessNode → String
unfolding decimal
node_addr node = append node.server (append ":" (number node.port))

-- `format!("https://{}:{}/{}/Tun", tls_sni, port, service_name)`
pub uri_text : String → ℕ → String → String
unfolding decimal
uri_text tls_sni port service_name =
    append "https://"
      (append tls_sni (append ":" (append (number port) (append "/" (append service_name "/Tun")))))

module _ (parse_addr : String → Option SocketAddr) (parse_uri : String → Option String) where
  pub node_transport : VMessNode → ℕ → Result BuildError Transport
  unfolding uri_text
  node_transport node port =
      if str_eq node.network "grpc"
      then (do
        let service_name = or_empty node.grpc_service_name
        let text = uri_text node.sni port service_name
        request_uri ← ok_or (parse_uri text) (bad_uri text)
        ok (grpc service_name node.sni request_uri))
      else ok tcp

  -- One round of the loop of `build_validator`.
  pub node_pair : VMessNode → Result BuildError (String × Upstream)
  unfolding node_transport
  node_pair node = do
    let addr = node_addr node
    parsed_addr ← ok_or (parse_addr addr) (bad_address addr)
    transport ← node_transport node parsed_addr.port
    ok (
      node.uuid,
      record {
        addr = addr;
        parsed_addr = parsed_addr;
        transport = transport;
        tcp_fast_open = false;
      },
    )

  unfoldable pub node_pairs : List VMessNode → Result BuildError (List (String × Upstream))
  unfolding node_pair
  node_pairs [] = ok []
  node_pairs (node ∷ nodes) = do pair ← node_pair node; pairs ← node_pairs nodes; ok (pair ∷ pairs)

  abbrev pub table_result : Result TableError Validator → Result BuildError Validator
  table_result (err e) = err (bad_table e)
  table_result (ok v) = ok v

  unfoldable pub build_validator : Crypto → List VMessNode → Result BuildError Validator
  unfolding node_pairs
  build_validator c nodes = do pairs ← node_pairs nodes; table_result (Validator.new c pairs)
