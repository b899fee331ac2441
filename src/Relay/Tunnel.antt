-- ===== src/Relay/Tunnel.antt =====
-- relay/outbound/grpc.rs: `open_grpc_tunnel`, which opens a gRPC stream on a connection of the pool, and
-- `await_grpc_response_headers`. Where no other task holds the endpoint's slot.
pub mod Reconnect
use tobira.Base.{
  ℕ, Bool, true, false, Option, none, some, String, Result, ok, err, and_then, if◌then◌else◌,
}
use tobira.Validator.{Upstream, tcp, grpc}
use tobira.Pool.{GrpcPool, get_or_create, evict}

-- How the HTTP/2 library fares with the connection of an id: whether it is made, whether it is ready
-- for a request, and whether it takes the request; and which request URIs it accepts.
pub record Http2 : Type 0 where
  pub connects : ℕ → Bool
  pub is_ready : ℕ → Bool
  pub takes_request : ℕ → Bool
  pub builds_request : String → Bool

pub data TunnelError : Type 0 where
  not_grpc : TunnelError
  connect_failed : TunnelError
  bad_request : TunnelError
  not_ready : TunnelError
  request_refused : TunnelError

-- A tunnel is the service name, the SNI and the id of its connection.
pub record GrpcTunnel : Type 0 where
  pub service_name : String
  pub tls_sni : String
  pub connection : ℕ

abbrev pub Opened : Type 0
Opened = Result TunnelError GrpcTunnel × GrpcPool

module _ (http : Http2) (now : ℕ) where
  -- `send_request`
  pub request_on : String → String → ℕ → GrpcPool → Opened
  request_on service_name tls_sni id pool = (
    if http.takes_request id
        then ok (record { service_name = service_name; tls_sni = tls_sni; connection = id })
        else err request_refused,
    pool,
  )

  -- After a reconnect.
  pub second_try : String → String → Option ℕ × GrpcPool → Opened
  unfolding request_on
  second_try service_name tls_sni (none, pool) = (err connect_failed, pool)
  second_try service_name tls_sni (some id, pool) =
      if http.is_ready id then request_on service_name tls_sni id pool else (err not_ready, pool)

  pub first_try : String → String → String → String → Option ℕ × GrpcPool → Option Opened
  unfolding second_try
  first_try addr service_name tls_sni request_uri (none, pool) = some (err connect_failed, pool)
  first_try addr service_name tls_sni request_uri (some id, pool) =
      elim (http.builds_request request_uri) [
        | false ↦ some (err bad_request, pool)
        | true ↦ elim (http.is_ready id) [
          | true ↦ some (request_on service_name tls_sni id pool)
          | false ↦
              and_then (get_or_create http.connects now addr tls_sni (evict addr tls_sni pool))
                (λ r. some (second_try service_name tls_sni r))
        ]
      ]

  -- `none` where another task holds the slot.
  pub open_grpc_tunnel : Upstream → GrpcPool → Option Opened
  unfolding first_try
  open_grpc_tunnel upstream pool = elim upstream.transport [
    | tcp ↦ some (err not_grpc, pool)
    | grpc service_name tls_sni request_uri ↦
        and_then (get_or_create http.connects now upstream.addr tls_sni pool)
          (first_try upstream.addr service_name tls_sni request_uri)
  ]

-- What the response's headers are: there, or an error, of the connection or of the stream alone.
pub data Headers : Type 0 where
  arrived : Headers
  connection_failed : Headers
  stream_failed : Headers

-- Whether the relay goes on, and the pool. An error aborts the task that sends.
unfoldable pub await_grpc_response_headers : Headers → String → String → GrpcPool → Bool × GrpcPool
await_grpc_response_headers arrived upstream_addr tls_sni pool = (true, pool)
await_grpc_response_headers connection_failed upstream_addr tls_sni pool =
    (false, evict upstream_addr tls_sni pool)
await_grpc_response_headers stream_failed upstream_addr tls_sni pool = (false, pool)
