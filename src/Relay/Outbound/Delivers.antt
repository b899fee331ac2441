-- ===== src/Relay/Outbound/Delivers.antt =====
-- relay/outbound/grpc.rs: what the upstream gets from a relay, and the client from the upstream.
use mathlib.Core.Path.{subst}
use tobira.Base.{
  ℕ, ◌≡◌, refl, sym, ap, ◌∙◌, ◌⊎◌, inl, inr, Option, none, some, take, true, false, List, [], ◌∷◌,
  ◌++◌, arith, length, map, flatten, All, Bool-cases, ok, err,
}
use tobira.Validator.{Upstream}
use tobira.Pool.{GrpcPool}
use tobira.Framing.{frame_into}
use tobira.Framing.RoundTrip.{frame, frame_into-frame}
use tobira.Framing.Reader.{chunk, Ended, grpc_to_raw, finished as written}
use tobira.Framing.Reader.Chunks.{IsDeliverable, grpc_to_raw-frames}
use tobira.Framing.Causes.{is_grpc_connection_error}
use tobira.Framing.Sender.{DataFrame, send_grpc_data}
use tobira.Framing.Sender.Whole.{body, send_grpc_data-sent}
use tobira.Framing.Forward.{Forwarded, finished, raw_to_grpc}
use tobira.Framing.Forward.Delivery.{
  payloads, IsLimited, Sending-cases, raw_to_grpc-body, limited_IsDeliverable,
}
use tobira.Relay.Wait.{Joined, returned, failed, cancelled, panicked, wait_grpc_relay}
use tobira.Relay.Tunnel.{GrpcTunnel, Opened, await_grpc_response_headers}
use tobira.Relay.Fast.{after_request}
use tobira.Relay.Outbound.{
  Meets, respond, Relayed, no_tunnel, auth_waits, auth_failed, no_response, relays, relay_opened,
  relay_grpc,
}

-- The frames that are sent are those of the Auth ID and of what is read, once the task has finished.
abbrev pub Sends : Meets → List ℕ → Forwarded × List DataFrame → Type 0
Sends m auth_id t1 =
    (All IsLimited m.reads)
    → (t1.0 ≡ finished)
    → body t1.1 ≡ flatten (map frame (auth_id ∷ payloads m.reads))

-- Where a task sends at all; and the bytes that are written are what the response's frames make, as far
-- as the task that writes them gets.
abbrev pub SendsIn : Meets → List ℕ → Relayed → Type 0
SendsIn m auth_id (no_tunnel e) = Unit
SendsIn m auth_id auth_waits = Unit
SendsIn m auth_id (auth_failed e) = Unit
SendsIn m auth_id (no_response t1) = Sends m auth_id t1
SendsIn m auth_id (relays joined t1 t2) =
    Sends m auth_id t1
    × (joined ≡ wait_grpc_relay m.idle_timeout m.events)
    × (t2 ≡ respond m joined)

-- The task that writes the response has been aborted, or goes on.
abbrev pub IsCutOff : Option (Joined × Joined) → Type 0
IsCutOff joined = (joined ≡ none) ⊎ ((r1 : Joined) × (joined ≡ some (r1, cancelled)))

-- The bytes are written, with the end of the stream at the end; or those up to where the task is cut off.
abbrev pub Writes : Option (Joined × Joined) → List ℕ → Option Ended × List ℕ → Type 0
Writes joined bytes t2 =
    (t2 ≡ (some written, bytes)) ⊎ (IsCutOff joined × ((n : ℕ) × (t2 ≡ (none, take n bytes))))

respond-Writes :
    (m : Meets) (bytes : List ℕ) (joined : Option (Joined × Joined))
    → grpc_to_raw m.writer m.response ≡ (written, bytes)
    → Writes joined bytes (respond m joined)
unfolding respond
respond-Writes m bytes none e = inr (inl refl, (m.reached, ap (λ r. (none, take m.reached r.1)) e))
respond-Writes m bytes (some (r1, cancelled)) e =
    inr (inr (r1, refl), (m.reached, ap (λ r. (none, take m.reached r.1)) e))
respond-Writes m bytes (some (r1, returned)) e = inl (ap (λ r. (some r.0, r.1)) e)
respond-Writes m bytes (some (r1, failed)) e = inl (ap (λ r. (some r.0, r.1)) e)
respond-Writes m bytes (some (r1, panicked)) e = inl (ap (λ r. (some r.0, r.1)) e)

module _ (m : Meets) (upstream : Upstream) where
  relay_opened-SendsIn :
      (auth_id : List ℕ) (tunnel : GrpcTunnel) (first : List DataFrame) (pool : GrpcPool)
      → body first ≡ frame auth_id
      → SendsIn m auth_id (relay_opened m upstream tunnel first pool).0
  unfolding relay_opened
  relay_opened-SendsIn auth_id tunnel first pool e =
      let t1 = raw_to_grpc m.reads first in
      let ended =
        after_request t1.0 (is_grpc_connection_error m.causes) upstream.addr tunnel.tls_sni pool in
      let sends : Sends m auth_id t1 = λ limited done.
        raw_to_grpc-body m.reads first limited done
        ∙ ap (λ t. t ++ flatten (map frame (payloads m.reads))) e in
      elim (Bool-cases
        (await_grpc_response_headers m.headers upstream.addr tunnel.tls_sni ended).0) [
          | inl arrives ↦ rw (arrives, relay_opened) (sends, refl, refl)
          | inr fails ↦ rw (fails, relay_opened) sends
        ]

  relay_grpc-SendsIn :
      (auth_id : List ℕ) (opened : Opened)
      → length auth_id ≡ 16
      → SendsIn m auth_id (relay_grpc m upstream auth_id opened).0
  unfolding relay_grpc
  relay_grpc-SendsIn auth_id (err e, pool) len = tt
  relay_grpc-SendsIn auth_id (ok tunnel, pool) len =
      let call = send_grpc_data m.auth.taken (frame_into [] auth_id) false m.auth.windows in
      elim (Sending-cases call.0) [
        | inl s ↦
            rw (s, relay_grpc)
              (relay_opened-SendsIn auth_id tunnel call.1 pool (
                send_grpc_data-sent m.auth.taken (frame_into [] auth_id) false m.auth.windows s
                ∙ frame_into-frame [] auth_id
                    (omega (arith, limited_IsDeliverable auth_id (omega arith)))))
        | inr (inl s) ↦ rw (s, relay_grpc) tt
        | inr (inr (why, s)) ↦ rw (s, relay_grpc) tt
      ]

pub relay_grpc-sends :
    (m : Meets) (upstream : Upstream) (auth_id : List ℕ) (opened : Opened)
    (joined : Option (Joined × Joined)) (t1 : Forwarded × List DataFrame)
    (t2 : Option Ended × List ℕ)
    → length auth_id ≡ 16
    → All IsLimited m.reads
    → (relay_grpc m upstream auth_id opened).0 ≡ relays joined t1 t2
    → t1.0 ≡ finished
    → body t1.1 ≡ flatten (map frame (auth_id ∷ payloads m.reads))
relay_grpc-sends m upstream auth_id opened joined t1 t2 len limited run done =
    (subst (SendsIn m auth_id) run (relay_grpc-SendsIn m upstream auth_id opened len)).0 limited
      done

-- Where a relay over a gRPC tunnel, given an Auth ID of 16 bytes and reads that fit its buffer,
-- gets to both directions and the one to the upstream ends, the upstream is sent the frame of the
-- Auth ID and behind it those of the bytes that were read from the client, and no others. If no
-- write to the client fails, it is written the data of the upstream's frames, each at most 16 MiB
-- long, in whatever chunks they arrive, and the end of the stream; unless the wait for the tasks
-- goes on or has aborted the one that writes, which has then written just a first part of that data.
pub relay_grpc-delivers :
    (m : Meets) (upstream : Upstream) (auth_id : List ℕ) (opened : Opened)
    (joined : Option (Joined × Joined)) (t1 : Forwarded × List DataFrame)
    (t2 : Option Ended × List ℕ) (ps cs : List (List ℕ))
    → ((out bytes : List ℕ) → m.writer.accepts out bytes ≡ true)
    → ((out : List ℕ) → m.writer.closes out ≡ true)
    → length auth_id ≡ 16
    → All IsLimited m.reads
    → All IsDeliverable ps
    → m.response ≡ map chunk cs
    → flatten cs ≡ flatten (map frame ps)
    → (relay_grpc m upstream auth_id opened).0 ≡ relays joined t1 t2
    → t1.0 ≡ finished
    → (body t1.1 ≡ flatten (map frame (auth_id ∷ payloads m.reads)))
      × (joined ≡ wait_grpc_relay m.idle_timeout m.events)
      × Writes joined (flatten ps) t2
relay_grpc-delivers m upstream auth_id opened joined t1 t2 ps cs takes shuts len limited d chunks
      whole run done =
    let (sends, waits, writes) =
      subst (SendsIn m auth_id) run (relay_grpc-SendsIn m upstream auth_id opened len) in
    (
      sends limited done,
      waits,
      subst (Writes joined (flatten ps)) (sym writes) (
          respond-Writes m (flatten ps) joined (
            ap (grpc_to_raw m.writer) chunks
            ∙ grpc_to_raw-frames m.writer takes shuts ps cs d whole)),
    )
