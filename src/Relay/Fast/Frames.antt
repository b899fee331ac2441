-- ===== src/Relay/Fast/Frames.antt =====
-- relay/inbound/grpc.rs: a gRPC upstream gets the frames of the client, all of them and no others.
use tobira.Base.{
  false, ℕ, suc, ◌+◌, ◌≡◌, refl, sym, ap, ◌∙◌, inl, inr, List, [], ◌∷◌, ◌++◌, length, map, flatten,
  All, append_assoc,
}
use tobira.Framing.RoundTrip.{frame}
use tobira.Framing.Reader.{chunk, pending}
use tobira.Framing.Reader.Chunks.{IsDeliverable}
use tobira.Framing.Sender.{DataFrame, send_grpc_data}
use tobira.Framing.Sender.Whole.{body, send_grpc_data-sent}
use tobira.Framing.Forward.{Peer, finished, awaiting_window, send_failed}
use tobira.Framing.Forward.Delivery.{Sending-cases, sent_body}
use tobira.Framing.Forward.Passing.{forward_loop-body}
use tobira.Relay.Fast.{send_cached}

send_cached-onto :
    (taken left : List (List ℕ)) (buf : List ℕ) (cs : List (List ℕ)) (peers : List Peer)
    (out : List DataFrame)
    → All IsDeliverable left
    → buf ++ flatten cs ≡ flatten (map frame left)
    → (send_cached (map frame taken) buf (map chunk cs) peers out).0 ≡ finished
    → body (send_cached (map frame taken) buf (map chunk cs) peers out).1
      ≡ body out ++ (flatten (map frame taken) ++ flatten (map frame left))
unfolding send_cached
send_cached-onto [] left buf cs peers out h whole e =
    forward_loop-body (suc (length buf + pending (map chunk cs))) buf cs left peers out h whole e
send_cached-onto (p ∷ ps) left buf cs [] out h whole e = cc
send_cached-onto (p ∷ ps) left buf cs (peer ∷ peers) out h whole e =
    let call = send_grpc_data peer.taken (frame p) false peer.windows in
    let round = send_cached (map frame (p ∷ ps)) buf (map chunk cs) (peer ∷ peers) out in
    elim (Sending-cases call.0) [
      | inl s ↦
          let step : round ≡ send_cached (map frame ps) buf (map chunk cs) peers (out ++ call.1) =
            rw (s, send_cached) refl in
          ap (λ r. body r.1) step
          ∙ send_cached-onto ps left buf cs peers (out ++ call.1) h whole
              (ap (λ r. r.0) (sym step) ∙ e)
          ∙ sent_body out call.1 (frame p) (flatten (map frame ps) ++ flatten (map frame left))
              (send_grpc_data-sent peer.taken (frame p) false peer.windows s)
          ∙ ap (λ t. body out ++ t)
              (sym (append_assoc (frame p) (flatten (map frame ps)) (flatten (map frame left))))
      | inr (inl s) ↦
          let step : round ≡ (awaiting_window, out ++ call.1) = rw (s, send_cached) refl in
          absurd (cc (e, step))
      | inr (inr (why, s)) ↦
          let step : round ≡ (send_failed why, out ++ call.1) = rw (s, send_cached) refl in
          absurd (cc (e, step))
    ]

-- If the request of a fast relay is sent to its end, its body is the frames that were read for the Auth
-- ID and behind them those that followed, each at most 16 MiB long, however either side cuts them.
pub send_cached-body :
    (taken left : List (List ℕ)) (buf : List ℕ) (cs : List (List ℕ)) (peers : List Peer)
    → All IsDeliverable left
    → buf ++ flatten cs ≡ flatten (map frame left)
    → (send_cached (map frame taken) buf (map chunk cs) peers []).0 ≡ finished
    → body (send_cached (map frame taken) buf (map chunk cs) peers []).1
      ≡ flatten (map frame taken) ++ flatten (map frame left)
send_cached-body taken left buf cs peers h whole e =
    send_cached-onto taken left buf cs peers [] h whole e
