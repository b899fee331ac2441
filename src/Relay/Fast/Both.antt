-- ===== src/Relay/Fast/Both.antt =====
-- relay/inbound/grpc.rs: `relay_grpc_to_grpc_fast` as a whole, with both directions.
pub mod Carries
mod Tests
use mathlib.Core.Path.{subst}
use tobira.Base.{
  ℕ, suc, ◌+◌, ◌≡◌, refl, sym, ap, ◌∙◌, inl, inr, Bool, true, false, List, [], ◌∷◌, ◌++◌, length,
  map, flatten, All, Bool-cases, if◌then◌else◌, Result, ok, err,
}
use tobira.Validator.{Upstream}
use tobira.Pool.{GrpcPool}
use tobira.Framing.Causes.{Cause, is_grpc_connection_error}
use tobira.Framing.RoundTrip.{frame}
use tobira.Framing.Reader.{Recv, chunk, pending}
use tobira.Framing.Reader.Chunks.{IsDeliverable}
use tobira.Framing.Sender.{SendError, Sending, sent, waiting, aborted, DataFrame, send_grpc_data}
use tobira.Framing.Sender.Whole.{body}
use tobira.Framing.Forward.{
  Peer, Forwarded, finished, awaiting_window, send_failed, forward_loop, grpc_frames_to_grpc,
}
use tobira.Framing.Forward.Delivery.{Sending-cases}
use tobira.Framing.Forward.Passing.{grpc_frames_to_grpc-body}
use tobira.Relay.Tunnel.{TunnelError, GrpcTunnel, Opened, Headers, await_grpc_response_headers}
use tobira.Relay.Fast.{send_cached, after_request}
use tobira.Relay.Fast.Frames.{send_cached-body}

-- What the relay meets: the rest of the request, from the reader's buffer and its stream, the upstream's
-- part in each send, the causes of the error if the task that sends fails, the response's headers and
-- body, and the client's part in each send of it.
pub record Meets : Type 0 where
  pub buf : List ℕ
  pub request : List Recv
  pub peers : List Peer
  pub causes : List Cause
  pub headers : Headers
  pub response : List Recv
  pub client : List Peer

-- How far the relay gets: no tunnel, a frame of those read for the Auth ID that waits or fails, no
-- response's headers though the task sends; or both directions.
pub data Relayed : Type 0 where
  no_tunnel : TunnelError → Relayed
  cached_waits : Relayed
  cached_failed : SendError → Relayed
  no_response : Forwarded × List DataFrame → Relayed
  relays : Forwarded × List DataFrame → Forwarded × List DataFrame → Relayed

-- The loop over the frames that were read for the Auth ID: how it ends, what was sent, and the upstream's
-- part in the later sends.
pub send_frames : List (List ℕ) → List Peer → List DataFrame → Sending × List DataFrame × List Peer
send_frames [] peers out = (sent, out, peers)
send_frames (frame ∷ frames) [] out = (waiting, out, [])
send_frames (frame ∷ frames) (peer ∷ peers) out =
    let (how, now, left) = send_grpc_data peer.taken frame false peer.windows in
    elim how [
      | sent ↦ send_frames frames peers (out ++ now)
      | waiting ↦ (waiting, out ++ now, peers)
      | aborted e ↦ (aborted e, out ++ now, peers)
    ]

module _ (m : Meets) (upstream : Upstream) where
  -- Where both the task's end and the headers evict the connection, which comes first makes no
  -- difference.
  pub relay_frames : GrpcTunnel → List DataFrame → List Peer → GrpcPool → Relayed × GrpcPool
  relay_frames tunnel first peers pool =
      let t1 = forward_loop (suc (length m.buf + pending m.request)) m.buf m.request peers first in
      let ended =
        after_request t1.0 (is_grpc_connection_error m.causes) upstream.addr tunnel.tls_sni pool in
      let (arrives, after) =
        await_grpc_response_headers m.headers upstream.addr tunnel.tls_sni ended in
      if arrives
      then (relays t1 (grpc_frames_to_grpc m.response m.client), after)
      else (no_response t1, after)

  pub relay_grpc_to_grpc_fast : List (List ℕ) → Opened → Relayed × GrpcPool
  unfolding relay_frames send_frames
  relay_grpc_to_grpc_fast cached (err e, pool) = (no_tunnel e, pool)
  relay_grpc_to_grpc_fast cached (ok tunnel, pool) =
      let (how, first, peers) = send_frames cached m.peers [] in
      elim how [
        | sent ↦ relay_frames tunnel first peers pool
        | waiting ↦ (cached_waits, pool)
        | aborted e ↦ (cached_failed e, pool)
      ]
