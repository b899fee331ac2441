-- ===== src/Framing/Forward/Passing.antt =====
-- relay/transport/grpc.rs, `grpc_frames_to_grpc`: frames that are passed on stay what they are.
use tobira.Base.{
  ℕ, zero, suc, ◌+◌, ◌<◌, ◌≡◌, ◌≢◌, refl, sym, ap, ◌∙◌, inl, inr, false, List, [], ◌∷◌, ◌++◌, arith,
  length, map, flatten, All, append-nil, found_cases,
}
use tobira.Framing.RoundTrip.{frame}
use tobira.Framing.Reader.{Recv, chunk, next_frame, pending}
use tobira.Framing.Reader.Chunks.{IsDeliverable, next_frame-Reads, next_frame_done, append_empty}
use tobira.Framing.Reader.Ends.{next_frame-length}
use tobira.Framing.Sender.{DataFrame, send_grpc_data}
use tobira.Framing.Sender.Whole.{body, send_grpc_data-sent}
use tobira.Framing.Forward.Delivery.{finish-body, sent_body, Sending-cases}
use tobira.Framing.Forward.{
  Peer, finished, awaiting_window, send_failed, out_of_fuel, finish, forward_loop,
  grpc_frames_to_grpc,
}

pub forward_loop-body :
    (fuel : ℕ) (buf : List ℕ) (cs ps : List (List ℕ)) (peers : List Peer) (out : List DataFrame)
    → All IsDeliverable ps
    → buf ++ flatten cs ≡ flatten (map frame ps)
    → (forward_loop fuel buf (map chunk cs) peers out).0 ≡ finished
    → body (forward_loop fuel buf (map chunk cs) peers out).1 ≡ body out ++ flatten (map frame ps)
unfolding forward_loop
forward_loop-body zero buf cs ps peers out h whole e = cc
forward_loop-body (suc fuel) buf cs ps [] out h whole e = cc
forward_loop-body (suc fuel) buf cs [] (peer ∷ peers) out h whole e =
    let (none_held, none_left) = append_empty buf (flatten cs) whole in
    rw (none_held, forward_loop)
      (rw (next_frame_done cs none_left, finish-body peer out) (sym (append-nil (body out))))
forward_loop-body (suc fuel) buf cs (p ∷ ps) (peer ∷ peers) out (d, h) whole e =
    let (buf', cs', reads, left) = next_frame-Reads p (flatten (map frame ps)) buf cs d whole in
    let call = send_grpc_data peer.taken (frame p) false peer.windows in
    let round = forward_loop (suc fuel) buf (map chunk cs) (peer ∷ peers) out in
    elim (Sending-cases call.0) [
      | inl s ↦
          let step : round ≡ forward_loop fuel buf' (map chunk cs') peers (out ++ call.1) =
            rw (reads, forward_loop)
              (rw (s, forward_loop)
                (λ i. forward_loop fuel (reads i).1 (reads i).2 peers (out ++ call.1))) in
          ap (λ r. body r.1) step
          ∙ forward_loop-body fuel buf' cs' ps peers (out ++ call.1) h left
              (ap (λ r. r.0) (sym step) ∙ e)
          ∙ sent_body out call.1 (frame p) (flatten (map frame ps))
              (send_grpc_data-sent peer.taken (frame p) false peer.windows s)
      | inr (inl s) ↦
          let step : round ≡ (awaiting_window, out ++ call.1) =
            rw (reads, forward_loop) (rw (s, forward_loop) refl) in
          absurd (cc (e, step))
      | inr (inr (why, s)) ↦
          let step : round ≡ (send_failed why, out ++ call.1) =
            rw (reads, forward_loop) (rw (s, forward_loop) refl) in
          absurd (cc (e, step))
    ]

-- A stream whose body is the frames of some payloads, each at most 16 MiB long, is passed on with the
-- same body, however either side cuts it, if the loop that passes it on is done.
pub grpc_frames_to_grpc-body :
    (cs ps : List (List ℕ)) (peers : List Peer)
    → All IsDeliverable ps
    → flatten cs ≡ flatten (map frame ps)
    → (grpc_frames_to_grpc (map chunk cs) peers).0 ≡ finished
    → body (grpc_frames_to_grpc (map chunk cs) peers).1 ≡ flatten cs
unfolding grpc_frames_to_grpc
grpc_frames_to_grpc-body cs ps peers h whole e =
    forward_loop-body _ [] cs ps peers [] h whole e ∙ sym whole

forward_loop-ne-out_of_fuel :
    (fuel : ℕ) (buf : List ℕ) (incoming : List Recv) (peers : List Peer) (out : List DataFrame)
    → length buf + pending incoming < fuel
    → (forward_loop fuel buf incoming peers out).0 ≢ out_of_fuel
unfolding forward_loop finish
forward_loop-ne-out_of_fuel zero buf incoming peers out h = absurd (omega arith)
forward_loop-ne-out_of_fuel (suc fuel) buf incoming [] out h = λ q. cc
forward_loop-ne-out_of_fuel (suc fuel) buf incoming (peer ∷ peers) out h =
    let (answer, rest, more) = next_frame buf incoming in
    elim (found_cases answer) [
      | inl (e, p) ↦ rw (p, forward_loop) (λ q. cc)
      | inr (inl p) ↦ rw (p, forward_loop) (λ q. cc)
      | inr (inr (found, p)) ↦
          let (five, fewer) = next_frame-length buf incoming found p in
          let call = send_grpc_data peer.taken found false peer.windows in
          rw (p, forward_loop)
            (elim (Sending-cases call.0) [
              | inl s ↦
                  rw (s, forward_loop)
                    (forward_loop-ne-out_of_fuel fuel rest more peers (out ++ call.1) (omega arith))
              | inr (inl s) ↦ rw (s, forward_loop) (λ q. cc)
              | inr (inr (why, s)) ↦ rw (s, forward_loop) (λ q. cc)
            ])
    ]

-- The loop has rounds enough, whatever the stream delivers and the peer does.
pub grpc_frames_to_grpc-ne-out_of_fuel :
    (incoming : List Recv) (peers : List Peer)
    → (grpc_frames_to_grpc incoming peers).0 ≢ out_of_fuel
unfolding grpc_frames_to_grpc
grpc_frames_to_grpc-ne-out_of_fuel incoming peers =
    forward_loop-ne-out_of_fuel (suc (pending incoming)) [] incoming peers [] (omega arith)
