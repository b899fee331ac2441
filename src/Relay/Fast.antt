-- ===== src/Relay/Fast.antt =====
-- relay/inbound/grpc.rs: `handle_request`, and the request of `relay_grpc_to_grpc_fast`, whose frames go
-- to a gRPC upstream as they stand.
pub mod Frames
pub mod Both
use tobira.Base.{
  ℕ, suc, ◌+◌, Bool, true, false, Option, none, some, String, List, [], ◌∷◌, ◌++◌, length,
}
use tobira.Auth.{Crypto}
use tobira.Validator.{Validator}
use tobira.Pool.{GrpcPool, evict}
use tobira.Framing.Reader.{Recv, pending}
use tobira.Framing.Sender.{sent, waiting, aborted, DataFrame, send_grpc_data}
use tobira.Framing.Forward.{Peer, Forwarded, finished, awaiting_window, send_failed, forward_loop}
use tobira.Relay.Inbound.{Request, Status, validate_request, Route, relay_request}

-- The loop over the frames that were read for the Auth ID, and then the task `t1`.
pub send_cached :
    List (List ℕ) → List ℕ → List Recv → List Peer → List DataFrame → Forwarded × List DataFrame
send_cached [] buf incoming peers out =
    forward_loop (suc (length buf + pending incoming)) buf incoming peers out
send_cached (frame ∷ frames) buf incoming [] out = (awaiting_window, out)
send_cached (frame ∷ frames) buf incoming (peer ∷ peers) out =
    let (how, now, left) = send_grpc_data peer.taken frame false peer.windows in
    elim how [
      | sent ↦ send_cached frames buf incoming peers (out ++ now)
      | waiting ↦ (awaiting_window, out ++ now)
      | aborted e ↦ (send_failed e, out ++ now)
    ]

-- When the task fails with an error of the connection, the pool's connection is evicted.
pub after_request : Forwarded → Bool → String → String → GrpcPool → GrpcPool
after_request finished on_connection addr tls_sni pool = pool
after_request how true addr tls_sni pool = evict addr tls_sni pool
after_request how false addr tls_sni pool = pool

-- What a request is answered: an error's status at once, or headers and what the relay sends.
pub data Answer : Type 0 where
  refused : Status → Answer
  relayed : Route → Answer

pub handle_request : Crypto → ℕ → Validator → String → Request → Bool → List Recv → Answer
handle_request c now validator service_name request in_time incoming =
    elim (validate_request request service_name) [
      | some status ↦ refused status
      | none ↦ relayed (relay_request c now validator in_time incoming)
    ]
