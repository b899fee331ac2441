-- ===== src/Relay/Core.antt =====
-- relay/core.rs, relay/outbound/mod.rs, relay/inbound/mod.rs and relay/outbound/tcp.rs: a raw VMess
-- stream from its Auth ID to its upstream.
pub mod Agree
pub mod Drain
use tobira.Base.{
  ℕ, Bool, true, false, Option, none, some, String, List, ◌++◌, Result, ok, err, ◌>>=◌,
  if◌then◌else◌,
}
use tobira.Config.{RelayConfig, RelayNetwork}
use tobira.Config
use tobira.Auth.{Crypto}
use tobira.Validator.{Upstream, Validator, Transport, tcp, grpc, match_auth_id}

pub data Inbound : Type 0 where
  tcp_inbound : Inbound
  grpc_inbound : String → Inbound

pub from_config : RelayConfig → Inbound
from_config config = elim config.network [
  | Config.tcp ↦ tcp_inbound
  | Config.grpc ↦ grpc_inbound config.service_name
]

pub data Outbound : Type 0 where
  tcp_outbound : Outbound
  grpc_outbound : Outbound

pub from_transport : Transport → Outbound
from_transport tcp = tcp_outbound
from_transport (grpc service_name tls_sni request_uri) = grpc_outbound

-- Where a stream goes: nowhere, since its Auth ID cannot be read; into the drain; or over an outbound to
-- an upstream, behind its Auth ID.
pub data Handled : Type 0 where
  read_failed : Handled
  drained : Handled
  relays : Outbound → Upstream → List ℕ → Handled

pub relay_authenticated_stream : Upstream → List ℕ → Handled
unfolding from_transport
relay_authenticated_stream upstream auth_id =
    relays (from_transport upstream.transport) upstream auth_id

-- `auth_id` is what the first read brings within the timeout: 16 bytes, or none.
pub handle_stream : Crypto → ℕ → Validator → Option (List ℕ) → Handled
unfolding relay_authenticated_stream
handle_stream c now validator none = read_failed
handle_stream c now validator (some auth_id) = elim (match_auth_id c now validator auth_id) [
  | none ↦ drained
  | some upstream ↦ relay_authenticated_stream upstream auth_id
]

pub data TcpError : Type 0 where
  connect_failed : TcpError
  nodelay_failed : TcpError
  initial_write_failed : TcpError
  copy_failed : TcpError

-- How the upstream's connection fares: whether it is made in time, takes the option, and takes the
-- Auth ID in time. `copies` is the copy in both directions, with the idle timeout if there is one: it
-- answers how many bytes it moved.
pub record TcpUpstream : Type 0 where
  pub connects : Bool
  pub sets_nodelay : Bool
  pub takes_auth_id : Bool
  pub copies : Option ℕ → Option (ℕ × ℕ)

abbrev check : Bool → TcpError → Result TcpError (Unit {0})
check true e = ok tt
check false e = err e

abbrev copied : Option (ℕ × ℕ) → Result TcpError (ℕ × ℕ)
copied none = err copy_failed
copied (some counts) = ok counts

pub relay_tcp : TcpUpstream → Option ℕ → Result TcpError (ℕ × ℕ)
relay_tcp upstream idle_timeout = do
  _ ← check upstream.connects connect_failed
  _ ← check upstream.sets_nodelay nodelay_failed
  _ ← check upstream.takes_auth_id initial_write_failed
  copied (upstream.copies idle_timeout)
