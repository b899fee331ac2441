-- ===== src/Framing/Forward/Delivery.antt =====
-- relay/transport/grpc.rs: what is read from one raw connection is what is written to the other.
use tobira.Base.{
  ℕ, ◌≤◌, ◌≡◌, refl, sym, ap, ◌∙◌, ◌⊎◌, inl, inr, true, false, List, [], ◌∷◌, ◌++◌, arith, length,
  map, flatten, All, append_assoc, append-nil, All-append,
}
use mathlib.Core.Path.{subst}
use tobira.Framing.{frame_into}
use tobira.Framing.Varint.{length-write_varint}
use tobira.Framing.RoundTrip.{frame, frame_into-frame}
use tobira.Framing.Reader.{chunk, Writer, grpc_to_raw, finished as written}
use tobira.Framing.Reader.Chunks.{IsDeliverable, grpc_to_raw-frames}
use tobira.Framing.Sender.{Sending, sent, waiting, aborted, DataFrame, send_grpc_data}
use tobira.Framing.Sender.Whole.{
  body, body-append, send_grpc_data-sent, send_grpc_data-empty, send_grpc_data-EndsLast,
  EndsLast-open,
}
use tobira.Framing.Forward.{
  raw_to_grpc_read_buf_size, Peer, Read, received, broken, finished, awaiting_window, send_failed,
  finish, raw_to_grpc,
}

-- What the raw connection delivers before its end.
abbrev pub payloads : List Read → List (List ℕ)
payloads [] = []
payloads (broken ∷ reads) = []
payloads (received [] peer ∷ reads) = []
payloads (received (x ∷ bytes) peer ∷ reads) = (x ∷ bytes) ∷ payloads reads

-- A read fills at most the space that the buffer offers.
abbrev pub IsLimited : Read → Type 0
IsLimited (received bytes peer) = length bytes ≤ raw_to_grpc_read_buf_size
IsLimited broken = Unit

pub Sending-cases : (s : Sending) → (s ≡ sent) ⊎ ((s ≡ waiting) ⊎ ((e : _) × (s ≡ aborted e)))
Sending-cases sent = inl refl
Sending-cases waiting = inr (inl refl)
Sending-cases (aborted e) = inr (inr (e, refl))

pub limited_IsDeliverable :
    (bytes : List ℕ) → length bytes ≤ raw_to_grpc_read_buf_size → IsDeliverable bytes
limited_IsDeliverable bytes h =
    let (len, least, most) = length-write_varint [] (length bytes) (omega arith) in omega arith

pub payloads-IsDeliverable :
    (reads : List Read) → All IsLimited reads → All IsDeliverable (payloads reads)
payloads-IsDeliverable [] h = tt
payloads-IsDeliverable (broken ∷ reads) h = tt
payloads-IsDeliverable (received [] peer ∷ reads) h = tt
payloads-IsDeliverable (received (x ∷ bytes) peer ∷ reads) (p, h) =
    (limited_IsDeliverable (x ∷ bytes) p, payloads-IsDeliverable reads h)

pub finish-body : (peer : Peer) (out : List DataFrame) → body (finish peer out).1 ≡ body out
unfolding finish
finish-body peer out =
    body-append out (send_grpc_data peer.taken [] true peer.windows).1
    ∙ ap (λ t. body out ++ t) (send_grpc_data-empty peer.taken true peer.windows)
    ∙ append-nil (body out)

pub sent_body :
    (out sent_now : List DataFrame) (now later : List ℕ)
    → body sent_now ≡ now
    → body (out ++ sent_now) ++ later ≡ body out ++ (now ++ later)
sent_body out sent_now now later e =
    rw (body-append out sent_now, e) (append_assoc (body out) now later)

pub raw_to_grpc-body :
    (reads : List Read) (out : List DataFrame)
    → All IsLimited reads
    → (raw_to_grpc reads out).0 ≡ finished
    → body (raw_to_grpc reads out).1 ≡ body out ++ flatten (map frame (payloads reads))
unfolding raw_to_grpc
raw_to_grpc-body [] out h e = cc
raw_to_grpc-body (broken ∷ reads) out h e = cc
raw_to_grpc-body (received [] peer ∷ reads) out h e =
    finish-body peer out ∙ sym (append-nil (body out))
raw_to_grpc-body (received (x ∷ bytes) peer ∷ reads) out (p, h) e =
    let call = send_grpc_data peer.taken (frame_into [] (x ∷ bytes)) false peer.windows in
    let whole = raw_to_grpc (received (x ∷ bytes) peer ∷ reads) out in
    elim (Sending-cases call.0) [
      | inl s ↦
          let step : whole ≡ raw_to_grpc reads (out ++ call.1) = rw (s, raw_to_grpc) refl in
          ap (λ r. body r.1) step
          ∙ raw_to_grpc-body reads (out ++ call.1) h (ap (λ r. r.0) (sym step) ∙ e)
          ∙ sent_body out call.1 (frame (x ∷ bytes)) (flatten (map frame (payloads reads))) (
              send_grpc_data-sent peer.taken (frame_into [] (x ∷ bytes)) false peer.windows s
              ∙ frame_into-frame [] (x ∷ bytes)
                  (omega (arith, limited_IsDeliverable (x ∷ bytes) p)))
      | inr (inl s) ↦
          let step : whole ≡ (awaiting_window, out ++ call.1) = rw (s, raw_to_grpc) refl in
          absurd (cc (e, step))
      | inr (inr (why, s)) ↦
          let step : whole ≡ (send_failed why, out ++ call.1) = rw (s, raw_to_grpc) refl in
          absurd (cc (e, step))
    ]

-- The peer takes the empty frame that is sent at the end of the reads.
abbrev pub TakesEnd : List Read → Type 0
TakesEnd [] = ⊥
TakesEnd (broken ∷ reads) = ⊥
TakesEnd (received [] peer ∷ reads) = peer.taken ≡ true
TakesEnd (received (x ∷ bytes) peer ∷ reads) = TakesEnd reads

-- The last frame, and no frame before it, ends the stream.
abbrev pub EndsStream : List DataFrame → Type 0
EndsStream fs =
    (out : List DataFrame) × (last : List ℕ) × (fs ≡ out ++ (last, true) ∷ [])
    × All (λ f. f.1 ≡ false) out

finish-EndsStream :
    (peer : Peer) (out : List DataFrame)
    → peer.taken ≡ true
    → All (λ f. f.1 ≡ false) out
    → EndsStream (finish peer out).1
unfolding finish send_grpc_data
finish-EndsStream peer out takes h =
    (out, [], ap (λ t. out ++ (send_grpc_data t [] true peer.windows).1) takes, h)

raw_to_grpc-EndsStream :
    (reads : List Read) (out : List DataFrame)
    → TakesEnd reads
    → All (λ f. f.1 ≡ false) out
    → (raw_to_grpc reads out).0 ≡ finished
    → EndsStream (raw_to_grpc reads out).1
unfolding raw_to_grpc
raw_to_grpc-EndsStream [] out takes h e = absurd takes
raw_to_grpc-EndsStream (broken ∷ reads) out takes h e = absurd takes
raw_to_grpc-EndsStream (received [] peer ∷ reads) out takes h e = finish-EndsStream peer out takes h
raw_to_grpc-EndsStream (received (x ∷ bytes) peer ∷ reads) out takes h e =
    let call = send_grpc_data peer.taken (frame_into [] (x ∷ bytes)) false peer.windows in
    let whole = raw_to_grpc (received (x ∷ bytes) peer ∷ reads) out in
    elim (Sending-cases call.0) [
      | inl s ↦
          let step : whole ≡ raw_to_grpc reads (out ++ call.1) = rw (s, raw_to_grpc) refl in
          let open_call =
            EndsLast-open call.1 (
              send_grpc_data-EndsLast peer.taken (frame_into [] (x ∷ bytes)) false peer.windows
                s) in
          subst (λ r. EndsStream r.1) (sym step)
            (raw_to_grpc-EndsStream reads (out ++ call.1) takes
              (All-append _ out call.1 h open_call) (ap (λ r. r.0) (sym step) ∙ e))
      | inr (inl s) ↦
          let step : whole ≡ (awaiting_window, out ++ call.1) = rw (s, raw_to_grpc) refl in
          absurd (cc (e, step))
      | inr (inr (why, s)) ↦
          let step : whole ≡ (send_failed why, out ++ call.1) = rw (s, raw_to_grpc) refl in
          absurd (cc (e, step))
    ]

-- A raw connection that is read to its end, in reads that fit the buffer, comes out of the other
-- one whole, if the loop that sends it is done and the peer takes the empty frame at the end, a
-- send whose result the loop drops: the last frame, and no other, ends the stream; and whatever
-- chunks the peer's HTTP/2 cuts the body of the stream into, the loop that writes the frames out is
-- done too, if no write fails, and has written just the bytes that were read.
pub raw_to_grpc-grpc_to_raw :
    (writer : Writer)
    → ((out bytes : List ℕ) → writer.accepts out bytes ≡ true)
    → ((out : List ℕ) → writer.closes out ≡ true)
    → (reads : List Read) (cs : List (List ℕ)) → All IsLimited reads
    → (raw_to_grpc reads []).0 ≡ finished
    → TakesEnd reads
    → flatten cs ≡ body (raw_to_grpc reads []).1
    → EndsStream (raw_to_grpc reads []).1
      × (grpc_to_raw writer (map chunk cs) ≡ (written, flatten (payloads reads)))
raw_to_grpc-grpc_to_raw writer takes shuts reads cs h e ends c = (
  raw_to_grpc-EndsStream reads [] ends tt e,
  grpc_to_raw-frames writer takes shuts (payloads reads) cs (payloads-IsDeliverable reads h)
      (c ∙ raw_to_grpc-body reads [] h e),
)
