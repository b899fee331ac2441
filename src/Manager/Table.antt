-- ===== src/Manager/Table.antt =====
-- subscription/manager.rs: the table has an entry for each node.
use tobira.Base.{Option, String, Result, ok, err, some, none, str_eq, if◌then◌else◌}
use tobira.Node.{VMessNode}
use tobira.Validator
use tobira.Validator.{SocketAddr, Transport, tcp, grpc, Upstream, Entry, Validator}
use tobira.Manager.{or_empty, node_addr}

-- For a gRPC transport, the name of its service and of its TLS server.
abbrev pub tunnel_of : Transport → Option (String × String)
tunnel_of tcp = none
tunnel_of (grpc service_name tls_sni request_uri) = some (service_name, tls_sni)

-- The UUID, the name of the upstream, the address that its connections go to, and the tunnel.
abbrev pub Way : Type 0
Way = String × String × Option SocketAddr × Option (String × String)

abbrev pair_route : String × Upstream → Way
pair_route (uuid, upstream) =
    (uuid, upstream.addr, some upstream.parsed_addr, tunnel_of upstream.transport)

abbrev pub route_of : Entry → Way
route_of e = pair_route (e.uuid, e.upstream)

-- The same, as the node says.
abbrev pub node_tunnel : VMessNode → Option (String × String)
node_tunnel n = if str_eq n.network "grpc" then some (or_empty n.grpc_service_name, n.sni) else none

abbrev pub node_route : (String → Option SocketAddr) → VMessNode → Way
node_route parse_addr n = (n.uuid, node_addr n, parse_addr (node_addr n), node_tunnel n)

abbrev from_ok : {E A : Type 0} → A → Result E A → A
from_ok fallback (ok x) = x
from_ok fallback (err e) = fallback
