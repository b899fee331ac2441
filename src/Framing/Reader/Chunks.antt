-- ===== src/Framing/Reader/Chunks.antt =====
-- relay/transport/grpc.rs: however HTTP/2 cuts a body of frames into chunks, the data comes out whole.
use tobira.Base.{
  ℕ, zero, suc, ◌/◌, ◌%◌, ◌^◌, ◌≤◌, ◌<◌, ◌≡◌, refl, sym, ap, ◌∙◌, Bool, true, false, ◌||◌, none,
  some, List, [], ◌∷◌, ◌++◌, arith, length, take, drop, is_empty, map, flatten, All, ok, inl, inr,
  length-append, append_split, append_assoc, append-nil, take-append, drop-append,
}
use tobira.Framing.{be_value, outer_len, max_grpc_frame_size, decode_grpc_frame_data}
use tobira.Framing.RoundTrip.{
  frame, message, length-message, be_value_lem, decode-frame, frame-length,
}
use tobira.Framing.Reader.{
  Recv, chunk, failed, split_frame, next_frame, finished, Writer, close_writer, copy_loop, pending,
  grpc_to_raw,
}

-- The reader takes frames whose message is at most 16 MiB long.
abbrev pub IsDeliverable : List ℕ → Type 0
IsDeliverable payload = outer_len payload ≤ max_grpc_frame_size

split_whole :
    (payload t : List ℕ)
    → IsDeliverable payload
    → split_frame (frame payload ++ t) ≡ ok (some (frame payload, t))
unfolding split_frame frame
split_whole payload t h =
    let len : length (message payload) ≡ outer_len payload = length-message payload (omega arith) in
    let front : take (outer_len payload) (message payload ++ t) ≡ message payload =
      rw (← len) (take-append (message payload) t) in
    let back : drop (outer_len payload) (message payload ++ t) ≡ t =
      rw (← len) (drop-append (message payload) t) in
    rw (be_value_lem (outer_len payload) (omega arith))
      (ground (arith, length-append (message payload) t))

split_short :
    (payload buf : List ℕ) (x : ℕ) (t : List ℕ)
    → IsDeliverable payload
    → frame payload ≡ buf ++ x ∷ t
    → split_frame buf ≡ ok none
unfolding split_frame frame
split_short payload (f ∷ a ∷ b ∷ c ∷ d ∷ body) x t h e =
    let n : ℕ = outer_len payload in
    let ea : n / 2 ^ 24 % 256 ≡ a = cc in
    let eb : n / 2 ^ 16 % 256 ≡ b = cc in
    let ec : n / 2 ^ 8 % 256 ≡ c = cc in
    let ed : n % 256 ≡ d = cc in
    let value : be_value a b c d ≡ n = omega arith in
    let len : length (message payload) ≡ n = length-message payload (omega arith) in
    let tail : message payload ≡ body ++ x ∷ t = cc in
    rw value (ground (arith, length-append body (x ∷ t), ap length tail))
split_short payload _ x t h e = refl

next_frame_found :
    (buf first rest : List ℕ) (incoming : List Recv)
    → split_frame buf ≡ ok (some (first, rest))
    → next_frame buf incoming ≡ (ok (some first), rest, incoming)
unfolding next_frame
next_frame_found buf first rest [] e = rw (e, next_frame)
next_frame_found buf first rest (chunk bytes ∷ more) e = rw (e, next_frame)
next_frame_found buf first rest (failed ∷ more) e = rw (e, next_frame)

next_frame_later :
    (buf bytes : List ℕ) (more : List Recv)
    → split_frame buf ≡ ok none
    → next_frame buf (chunk bytes ∷ more) ≡ next_frame (buf ++ bytes) more
unfolding next_frame
next_frame_later buf bytes more e = rw (e, next_frame)

found_at :
    (payload buf t : List ℕ) (incoming : List Recv)
    → IsDeliverable payload
    → buf ≡ frame payload ++ t
    → next_frame buf incoming ≡ (ok (some (frame payload)), t, incoming)
found_at payload buf t incoming h p =
    next_frame_found buf (frame payload) t incoming (ap split_frame p ∙ split_whole payload t h)

-- What the reader answers on a stream that starts with the frame of `payload`, in whatever chunks.
abbrev pub Reads : List ℕ → List ℕ → List ℕ → List (List ℕ) → Type 0
Reads payload rest buf cs =
    (buf' : List ℕ) × (cs' : List (List ℕ)) × (next_frame buf (map chunk cs)
      ≡ (ok (some (frame payload)), buf', map chunk cs'))
    × (buf' ++ flatten cs' ≡ rest)

pub next_frame-Reads :
    (payload rest buf : List ℕ) (cs : List (List ℕ))
    → IsDeliverable payload
    → buf ++ flatten cs ≡ frame payload ++ rest
    → Reads payload rest buf cs
next_frame-Reads payload rest buf [] h e = elim (append_split buf [] (frame payload) rest e) [
  | inl (t, p, q) ↦ (t, [], found_at payload buf t [] h p, sym q)
  | inr (x, t, p, q) ↦ absurd (cc)
]
next_frame-Reads payload rest buf (c ∷ cs) h e =
    elim (append_split buf (c ++ flatten cs) (frame payload) rest e) [
      | inl (t, p, q) ↦ (t, c ∷ cs, found_at payload buf t (chunk c ∷ map chunk cs) h p, sym q)
      | inr (x, t, p, q) ↦
          let (buf', cs', reads, left) =
            next_frame-Reads payload rest (buf ++ c) cs h (append_assoc buf c (flatten cs) ∙ e) in
          (
            buf',
            cs',
            next_frame_later buf c (map chunk cs) (split_short payload buf x t h p) ∙ reads,
            left,
          )
    ]

-- An empty stream, in whatever empty chunks, ends the loop.
pub next_frame_done :
    (cs : List (List ℕ)) → flatten cs ≡ [] → (next_frame [] (map chunk cs)).0 ≡ ok none
unfolding next_frame split_frame
next_frame_done [] e = refl
next_frame_done ([] ∷ cs) e = next_frame_done cs e
next_frame_done ((x ∷ c) ∷ cs) e = cc

pub append_empty : (xs ys : List ℕ) → xs ++ ys ≡ [] → (xs ≡ []) × (ys ≡ [])
append_empty [] ys e = (refl, e)
append_empty (x ∷ xs) ys e = absurd (cc)

pub or_true : (b : Bool) → (b || true) ≡ true
or_true true = refl
or_true false = refl

pub length-flatten-map : (cs : List (List ℕ)) → pending (map chunk cs) ≡ length (flatten cs)
length-flatten-map [] = refl
length-flatten-map (c ∷ cs) = omega (arith, length-flatten-map cs, length-append c (flatten cs))

pub frames_length :
    (payloads : List (List ℕ)) → length payloads ≤ length (flatten (map frame payloads))
frames_length [] = omega arith
frames_length (p ∷ ps) =
    omega
      (arith, frames_length ps, frame-length p, length-append (frame p) (flatten (map frame ps)))

module _ (writer : Writer) (takes : (out bytes : List ℕ) → writer.accepts out bytes ≡ true)
    (shuts : (out : List ℕ) → writer.closes out ≡ true) where
  copy_loop_step :
      (fuel : ℕ) (buf rest out payload : List ℕ) (incoming more : List Recv)
      → IsDeliverable payload
      → next_frame buf incoming ≡ (ok (some (frame payload)), rest, more)
      → copy_loop writer (suc fuel) buf incoming out
        ≡ copy_loop writer fuel rest more (out ++ payload)
  unfolding copy_loop
  copy_loop_step fuel buf rest out payload incoming more h e =
      let read : decode_grpc_frame_data (frame payload) ≡ ok (some payload) =
        ap decode_grpc_frame_data (sym (append-nil (frame payload)))
        ∙ decode-frame payload [] (omega arith)
        ∙ ground arith in
      rw (e, copy_loop)
        (rw read (
          rw (takes out payload, or_true (is_empty payload))
            (λ i. copy_loop writer fuel (e i).1 (e i).2 (out ++ payload))))

  copy_loop-frames :
      (payloads : List (List ℕ)) (fuel : ℕ) (buf : List ℕ) (cs : List (List ℕ)) (out : List ℕ)
      → All IsDeliverable payloads
      → buf ++ flatten cs ≡ flatten (map frame payloads)
      → length payloads < fuel
      → copy_loop writer fuel buf (map chunk cs) out ≡ (finished, out ++ flatten payloads)
  unfolding copy_loop close_writer
  copy_loop-frames payloads zero buf cs out h e enough = absurd (omega arith)
  copy_loop-frames [] (suc fuel) buf cs out h e enough =
      let (none_held, none_left) = append_empty buf (flatten cs) e in
      rw (none_held, copy_loop)
        (rw (next_frame_done cs none_left, append-nil, shuts out, close_writer))
  copy_loop-frames (payload ∷ payloads) (suc fuel) buf cs out (p, h) e enough =
      let (buf', cs', reads, left) =
        next_frame-Reads payload (flatten (map frame payloads)) buf cs p e in
      copy_loop_step fuel buf buf' out payload (map chunk cs) (map chunk cs') p reads
      ∙ copy_loop-frames payloads fuel buf' cs' (out ++ payload) h left (omega arith)
      ∙ ap (λ o. (finished, o)) (append_assoc out payload (flatten payloads))

  -- A body that holds the frames of some payloads, each at most 16 MiB long, comes out as the
  -- payloads' bytes in order, however it is cut into chunks, if no write fails.
  pub grpc_to_raw-frames :
      (payloads cs : List (List ℕ))
      → All IsDeliverable payloads
      → flatten cs ≡ flatten (map frame payloads)
      → grpc_to_raw writer (map chunk cs) ≡ (finished, flatten payloads)
  unfolding grpc_to_raw
  grpc_to_raw-frames payloads cs h e =
      copy_loop-frames payloads (suc (pending (map chunk cs))) [] cs [] h e
        (omega (arith, length-flatten-map cs, frames_length payloads, ap length e))
