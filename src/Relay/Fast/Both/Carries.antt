-- ===== src/Relay/Fast/Both/Carries.antt =====
-- relay/inbound/grpc.rs: what a fast relay carries in both directions.
use mathlib.Core.Path.{subst}
use tobira.Base.{
  ℕ, suc, ◌+◌, ◌≡◌, refl, sym, ap, ◌∙◌, inl, inr, false, List, [], ◌∷◌, ◌++◌, length, map, flatten,
  All, Bool-cases, ok, err,
}
use tobira.Validator.{Upstream}
use tobira.Pool.{GrpcPool}
use tobira.Framing.Causes.{is_grpc_connection_error}
use tobira.Framing.RoundTrip.{frame}
use tobira.Framing.Reader.{Recv, chunk, pending}
use tobira.Framing.Reader.Chunks.{IsDeliverable}
use tobira.Framing.Sender.{sent, waiting, aborted, DataFrame, send_grpc_data}
use tobira.Framing.Sender.Whole.{body}
use tobira.Framing.Forward.{Peer, Forwarded, finished, forward_loop, grpc_frames_to_grpc}
use tobira.Framing.Forward.Delivery.{Sending-cases}
use tobira.Framing.Forward.Passing.{grpc_frames_to_grpc-body}
use tobira.Relay.Tunnel.{GrpcTunnel, Opened, await_grpc_response_headers}
use tobira.Relay.Fast.{send_cached, after_request}
use tobira.Relay.Fast.Frames.{send_cached-body}
use tobira.Relay.Fast.Both.{
  Meets, Relayed, no_tunnel, cached_waits, cached_failed, no_response, relays, send_frames,
  relay_frames, relay_grpc_to_grpc_fast,
}

-- The loop and the task behind it are `send_cached`.
send_frames-sent :
    (frames : List (List ℕ)) (buf : List ℕ) (incoming : List Recv) (peers : List Peer)
    (out : List DataFrame)
    → (send_frames frames peers out).0 ≡ sent
    → send_cached frames buf incoming peers out
      ≡ forward_loop
          (suc (length buf + pending incoming))
          buf
          incoming
          (send_frames frames peers out).2
          (send_frames frames peers out).1
unfolding send_frames send_cached
send_frames-sent [] buf incoming peers out e = refl
send_frames-sent (f ∷ frames) buf incoming [] out e = cc
send_frames-sent (f ∷ frames) buf incoming (peer ∷ peers) out e =
    let call = send_grpc_data peer.taken f false peer.windows in
    let next = out ++ call.1 in
    let fuel = suc (length buf + pending incoming) in
    elim (Sending-cases call.0) [
      | inl s ↦
          let step : send_frames (f ∷ frames) (peer ∷ peers) out ≡ send_frames frames peers next =
            rw (s, send_frames) refl in
          rw (s, send_cached)
            (send_frames-sent frames buf incoming peers next (ap (λ r. r.0) (sym step) ∙ e)
              ∙ ap (λ r. forward_loop fuel buf incoming r.2 r.1) (sym step))
      | inr (inl s) ↦
          let step : send_frames (f ∷ frames) (peer ∷ peers) out ≡ (waiting, next, peers) =
            rw (s, send_frames) refl in
          absurd (cc (e, step))
      | inr (inr (why, s)) ↦
          let step : send_frames (f ∷ frames) (peer ∷ peers) out ≡ (aborted why, next, peers) =
            rw (s, send_frames) refl in
          absurd (cc (e, step))
    ]

abbrev CarriesIn : Meets → List (List ℕ) → Relayed → Type 0
CarriesIn m cached (no_tunnel e) = Unit
CarriesIn m cached cached_waits = Unit
CarriesIn m cached (cached_failed e) = Unit
CarriesIn m cached (no_response t1) = t1 ≡ send_cached cached m.buf m.request m.peers []
CarriesIn m cached (relays t1 t2) =
    (t1 ≡ send_cached cached m.buf m.request m.peers [])
    × (t2 ≡ grpc_frames_to_grpc m.response m.client)

module _ (m : Meets) (upstream : Upstream) where
  relay_frames-CarriesIn :
      (cached : List (List ℕ)) (tunnel : GrpcTunnel) (first : List DataFrame) (peers : List Peer)
      (pool : GrpcPool)
      → send_cached cached m.buf m.request m.peers []
        ≡ forward_loop (suc (length m.buf + pending m.request)) m.buf m.request peers first
      → CarriesIn m cached (relay_frames m upstream tunnel first peers pool).0
  unfolding relay_frames
  relay_frames-CarriesIn cached tunnel first peers pool same =
      let t1 = forward_loop (suc (length m.buf + pending m.request)) m.buf m.request peers first in
      let ended =
        after_request t1.0 (is_grpc_connection_error m.causes) upstream.addr tunnel.tls_sni pool in
      elim (Bool-cases
        (await_grpc_response_headers m.headers upstream.addr tunnel.tls_sni ended).0) [
          | inl arrives ↦ rw (arrives, relay_frames) (sym same, refl)
          | inr fails ↦ rw (fails, relay_frames) (sym same)
        ]

  relay_fast-CarriesIn :
      (cached : List (List ℕ)) (opened : Opened)
      → CarriesIn m cached (relay_grpc_to_grpc_fast m upstream cached opened).0
  unfolding relay_grpc_to_grpc_fast
  relay_fast-CarriesIn cached (err e, pool) = tt
  relay_fast-CarriesIn cached (ok tunnel, pool) =
      let call = send_frames cached m.peers [] in
      elim (Sending-cases call.0) [
        | inl s ↦
            rw (s, relay_grpc_to_grpc_fast)
              (relay_frames-CarriesIn cached tunnel call.1 call.2 pool
                (send_frames-sent cached m.buf m.request m.peers [] s))
        | inr (inl s) ↦ rw (s, relay_grpc_to_grpc_fast) tt
        | inr (inr (why, s)) ↦ rw (s, relay_grpc_to_grpc_fast) tt
      ]

-- Where a fast relay gets to both directions and they end, the body of its request to the upstream
-- is the frames that were read for the Auth ID and behind them those that the client sent later,
-- from the reader's buffer on, and the body of its response to the client is that of the upstream's
-- response. The later frames and those of the response are at most 16 MiB long each, in whatever
-- chunks either side cuts them.
pub relay_fast-carries :
    (m : Meets) (upstream : Upstream) (taken left answers cs ds : List (List ℕ)) (opened : Opened)
    (t1 t2 : Forwarded × List DataFrame)
    → m.request ≡ map chunk cs
    → m.buf ++ flatten cs ≡ flatten (map frame left)
    → All IsDeliverable left
    → m.response ≡ map chunk ds
    → flatten ds ≡ flatten (map frame answers)
    → All IsDeliverable answers
    → (relay_grpc_to_grpc_fast m upstream (map frame taken) opened).0 ≡ relays t1 t2
    → t1.0 ≡ finished
    → t2.0 ≡ finished
    → (body t1.1 ≡ flatten (map frame taken) ++ flatten (map frame left)) × (body t2.1 ≡ flatten ds)
relay_fast-carries m upstream taken left answers cs ds opened t1 t2 requests rest d responses whole
      e run done over =
    let (there, back) =
      subst (CarriesIn m (map frame taken)) run
        (relay_fast-CarriesIn m upstream (map frame taken) opened) in
    let sends = there ∙ ap (λ r. send_cached (map frame taken) m.buf r m.peers []) requests in
    let answered = back ∙ ap (λ r. grpc_frames_to_grpc r m.client) responses in
    (
      ap (λ r. body r.1) sends
          ∙ send_cached-body taken left m.buf cs m.peers d rest (ap (λ r. r.0) (sym sends) ∙ done),
      ap (λ r. body r.1) answered
          ∙ grpc_frames_to_grpc-body ds answers m.client e whole
              (ap (λ r. r.0) (sym answered) ∙ over),
    )
