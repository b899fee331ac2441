-- ===== src/Relay/Outbound.antt =====
-- relay/outbound/grpc.rs: `relay_grpc`, which leads a raw stream over a gRPC tunnel.
pub mod Delivers
pub mod Chain
mod Tests
use tobira.Base.{
  ℕ, Bool, true, false, ◌||◌, Option, none, some, String, List, [], ◌∷◌, any, take, if◌then◌else◌,
  Result, ok, err,
}
use tobira.Validator.{Upstream}
use tobira.Pool.{GrpcPool}
use tobira.Framing.{frame_into}
use tobira.Framing.Causes.{Cause, is_grpc_connection_error}
use tobira.Framing.Reader.{Recv, Ended, Writer, grpc_to_raw}
use tobira.Framing.Sender.{SendError, sent, waiting, aborted, DataFrame, send_grpc_data}
use tobira.Framing.Forward.{Peer, Read, Forwarded, raw_to_grpc}
use tobira.Relay.Fast.{after_request}
use tobira.Relay.Wait.{Joined, returned, failed, cancelled, panicked, WaitEvent, wait_grpc_relay}
use tobira.Relay.Tunnel.{TunnelError, GrpcTunnel, Opened, Headers, await_grpc_response_headers}

-- What a relay meets: the upstream's part when the Auth ID is sent, the reads of the inbound with the
-- upstream's part in each send, up to where that task ends or is aborted; the causes of the error if it
-- fails; the response's headers and body, and the inbound's part when that is written to it; the idle
-- timeout, what the wait for the two tasks sees, and how many bytes the response's task has written when
-- it is aborted.
pub record Meets : Type 0 where
  pub auth : Peer
  pub reads : List Read
  pub causes : List Cause
  pub headers : Headers
  pub response : List Recv
  pub writer : Writer
  pub idle_timeout : Option ℕ
  pub events : List WaitEvent
  pub reached : ℕ

-- How far a relay gets: no tunnel, an Auth ID that waits or fails, no response's headers though the task
-- sends; or both directions: what the wait for the tasks brings, the frames that are sent and the bytes
-- that are written, with no end where the task that writes them is aborted or goes on.
pub data Relayed : Type 0 where
  no_tunnel : TunnelError → Relayed
  auth_waits : Relayed
  auth_failed : SendError → Relayed
  no_response : Forwarded × List DataFrame → Relayed
  relays : Option (Joined × Joined) → Forwarded × List DataFrame → Option Ended × List ℕ → Relayed

module _ (m : Meets) where
  abbrev cut_off : Option Ended × List ℕ
  cut_off = (none, take m.reached (grpc_to_raw m.writer m.response).1)

  abbrev to_its_end : Option Ended × List ℕ
  to_its_end = let (how, bytes) = grpc_to_raw m.writer m.response in (some how, bytes)

  -- The task that writes the response: aborted, it has written a part of what it would have.
  unfoldable pub respond : Option (Joined × Joined) → Option Ended × List ℕ
  respond none = cut_off
  respond (some (r1, cancelled)) = cut_off
  respond (some (r1, returned)) = to_its_end
  respond (some (r1, failed)) = to_its_end
  respond (some (r1, panicked)) = to_its_end

module _ (m : Meets) (upstream : Upstream) where
  -- Behind the Auth ID. Where both the task's end and the headers evict the connection, which comes first
  -- makes no difference.
  pub relay_opened : GrpcTunnel → List DataFrame → GrpcPool → Relayed × GrpcPool
  unfolding respond
  relay_opened tunnel first pool =
      let t1 = raw_to_grpc m.reads first in
      let ended =
        after_request t1.0 (is_grpc_connection_error m.causes) upstream.addr tunnel.tls_sni pool in
      let (arrives, after) =
        await_grpc_response_headers m.headers upstream.addr tunnel.tls_sni ended in
      let joined = wait_grpc_relay m.idle_timeout m.events in
      if arrives then (relays joined t1 (respond m joined), after) else (no_response t1, after)

  -- The task sends before the headers are awaited. The frame of the Auth ID is built in an empty buffer
  -- of the pool. Headers that do not arrive abort the task.
  pub relay_grpc : List ℕ → Opened → Relayed × GrpcPool
  unfolding relay_opened
  relay_grpc auth_id (err e, pool) = (no_tunnel e, pool)
  relay_grpc auth_id (ok tunnel, pool) =
      let (how, first, left) =
        send_grpc_data m.auth.taken (frame_into [] auth_id) false m.auth.windows in
      elim how [
        | sent ↦ relay_opened tunnel first pool
        | waiting ↦ (auth_waits, pool)
        | aborted e ↦ (auth_failed e, pool)
      ]
