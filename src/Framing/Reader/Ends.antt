-- ===== src/Framing/Reader/Ends.antt =====
-- relay/transport/grpc.rs: the loop that writes frames out ends on every stream.
use tobira.Base.{
  ℕ, zero, suc, ◌+◌, ◌≤◌, ◌<◌, ◌≡◌, ◌≢◌, some, List, [], ◌∷◌, ◌++◌, arith, length, ok, inl, inr,
  length-append, length-take, length-drop, found_cases,
}
use tobira.Framing.{be_value, decode_grpc_frame_data}
use tobira.Framing.Reader.{
  Recv, chunk, failed, split_frame, next_frame, stuck, Writer, close_writer, copy_loop, pending,
  grpc_to_raw,
}

split_frame-length :
    (buf frame rest : List ℕ)
    → split_frame buf ≡ ok (some (frame, rest))
    → (5 ≤ length frame) × (length frame + length rest ≡ length buf)
unfolding split_frame
split_frame-length (f ∷ a ∷ b ∷ c ∷ d ∷ body) frame rest e =
    ground (arith, length-take (be_value a b c d) body, length-drop (be_value a b c d) body)
split_frame-length _ frame rest e = cc

pub next_frame-length :
    (buf : List ℕ) (incoming : List Recv) (frame : List ℕ)
    → (next_frame buf incoming).0 ≡ ok (some frame)
    → (5 ≤ length frame)
      × (length frame + length (next_frame buf incoming).1 + pending (next_frame buf incoming).2
          ≤ length buf + pending incoming)
unfolding next_frame
next_frame-length buf [] frame e = elim (found_cases (split_frame buf)) [
  | inl (x, s) ↦ ground arith
  | inr (inl s) ↦ ground arith
  | inr (inr ((first, left), s)) ↦ ground (arith, split_frame-length buf first left s)
]
next_frame-length buf (chunk bytes ∷ later) frame e = elim (found_cases (split_frame buf)) [
  | inl (x, s) ↦ ground arith
  | inr (inl s) ↦
      ground (arith, next_frame-length (buf ++ bytes) later frame, length-append buf bytes)
  | inr (inr ((first, left), s)) ↦ ground (arith, split_frame-length buf first left s)
]
next_frame-length buf (failed ∷ later) frame e = elim (found_cases (split_frame buf)) [
  | inl (x, s) ↦ ground arith
  | inr (inl s) ↦ ground arith
  | inr (inr ((first, left), s)) ↦ ground (arith, split_frame-length buf first left s)
]

module _ (writer : Writer) where
  -- One round of the loop after a frame has been read.
  copy_loop-ne-stuck :
      (fuel : ℕ) (buf : List ℕ) (incoming : List Recv) (out : List ℕ)
      → length buf + pending incoming < fuel
      → (copy_loop writer fuel buf incoming out).0 ≢ stuck
  unfolding copy_loop close_writer
  copy_loop-ne-stuck zero buf incoming out h = absurd (omega arith)
  copy_loop-ne-stuck (suc fuel) buf incoming out h =
      let (answer, rest, more) = next_frame buf incoming in
      elim (found_cases answer) [
        | inl (e, p) ↦ rw (p, copy_loop) (λ q. cc)
        | inr (inl p) ↦ rw (p, copy_loop) (ground arith)
        | inr (inr (frame, p)) ↦
            let (five, fewer) = next_frame-length buf incoming frame p in
            rw (p, copy_loop)
              (elim (found_cases (decode_grpc_frame_data frame)) [
                | inl (x, d) ↦ rw (d, copy_loop) (λ q. cc)
                | inr (inl d) ↦ rw d (copy_loop-ne-stuck fuel rest more out (omega arith))
                | inr (inr (bytes, d)) ↦
                    rw d (ground (arith, copy_loop-ne-stuck fuel rest more (out ++ bytes)))
              ])
      ]

-- Whatever the stream delivers and however the writer behaves, the loop comes to an end within the
-- rounds that it is given.
pub grpc_to_raw-ne-stuck :
    (writer : Writer) (incoming : List Recv) → (grpc_to_raw writer incoming).0 ≢ stuck
unfolding grpc_to_raw
grpc_to_raw-ne-stuck writer incoming =
    copy_loop-ne-stuck writer (suc (pending incoming)) [] incoming [] (omega arith)
