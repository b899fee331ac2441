-- ===== src/Framing/Reader.antt =====
-- relay/transport/grpc.rs: `GrpcFrameReader`, which cuts an HTTP/2 body into frames, and the loop
-- that writes the data of the frames out.
pub mod Chunks
pub mod Ends
use tobira.Base.{
  ℕ, zero, suc, ◌+◌, ◌*◌, ◌≤◌, ◌<◌, Bool, true, false, ◌||◌, Option, none, some, List, [], ◌∷◌,
  ◌++◌, leb, ltb, if◌then◌else◌, length, take, drop, is_empty, Result, ok, err, ◌>>=◌,
}
use tobira.Framing.{be_value, max_grpc_frame_size, decode_grpc_frame_data, Panic}

-- What the peer's HTTP/2 stream delivers next; the end of the list is the end of the stream.
pub data Recv : Type 0 where
  chunk : List ℕ → Recv
  failed : Recv

pub data ReadError : Type 0 where
  too_large : ℕ → ReadError
  recv_failed : ReadError

-- The test at the head of the loop of `next_frame`: the first frame of the buffer and the rest.
unfoldable pub split_frame : List ℕ → Result ReadError (Option (List ℕ × List ℕ))
split_frame (f ∷ a ∷ b ∷ c ∷ d ∷ body) =
    let outer = be_value a b c d in
    if ltb max_grpc_frame_size outer
    then err (too_large outer)
    else if leb outer (length body)
    then ok (some (f ∷ a ∷ b ∷ c ∷ d ∷ take outer body, drop outer body))
    else ok none
split_frame buf = ok none

-- The answer, the buffer, and what the stream still holds.
abbrev pub Step : Type 0
Step = Result ReadError (Option (List ℕ)) × List ℕ × List Recv

unfoldable pub next_frame : List ℕ → List Recv → Step
next_frame buf [] = elim (split_frame buf) [
  | err e ↦ (err e, buf, [])
  | ok (some (frame, rest)) ↦ (ok (some frame), rest, [])
  | ok none ↦ (ok none, buf, [])
]
next_frame buf (chunk bytes ∷ more) = elim (split_frame buf) [
  | err e ↦ (err e, buf, chunk bytes ∷ more)
  | ok (some (frame, rest)) ↦ (ok (some frame), rest, chunk bytes ∷ more)
  | ok none ↦ next_frame (buf ++ bytes) more
]
next_frame buf (failed ∷ more) = elim (split_frame buf) [
  | err e ↦ (err e, buf, failed ∷ more)
  | ok (some (frame, rest)) ↦ (ok (some frame), rest, failed ∷ more)
  | ok none ↦ (err recv_failed, buf, more)
]

-- How the loop over the frames ends. `stuck` stands for fuel that ran out.
pub data Ended : Type 0 where
  finished : Ended
  read_failed : ReadError → Ended
  write_failed : Ended
  panicked : Panic → Ended
  stuck : Ended

-- The raw side of the relay: whether it takes a write after what it was written already, and whether
-- it can be flushed and shut down.
pub record Writer : Type 0 where
  pub accepts : List ℕ → List ℕ → Bool
  pub closes : List ℕ → Bool

module _ (writer : Writer) where
  pub close_writer : List ℕ → Ended × List ℕ
  close_writer out = (if writer.closes out then finished else write_failed, out)

  -- The loop of `grpc_to_raw_with_activity`: how it ends, and the bytes written. A frame without
  -- data writes nothing.
  pub copy_loop : ℕ → List ℕ → List Recv → List ℕ → Ended × List ℕ
  copy_loop zero buf incoming out = (stuck, out)
  copy_loop (suc fuel) buf incoming out =
      let (answer, rest, more) = next_frame buf incoming in
      elim answer [
        | err e ↦ (read_failed e, out)
        | ok none ↦ close_writer out
        | ok (some frame) ↦ elim (decode_grpc_frame_data frame) [
          | err p ↦ (panicked p, out)
          | ok none ↦ copy_loop fuel rest more out
          | ok (some bytes) ↦ elim (is_empty bytes || writer.accepts out bytes) [
            | true ↦ copy_loop fuel rest more (out ++ bytes)
            | false ↦ (write_failed, out)
          ]
        ]
      ]

-- The bytes that the stream still delivers.
abbrev pub pending : List Recv → ℕ
pending [] = 0
pending (chunk bytes ∷ more) = length bytes + pending more
pending (failed ∷ more) = pending more

-- Each round takes a frame of five bytes at least, so one round more than there are bytes suffices.
pub grpc_to_raw : Writer → List Recv → Ended × List ℕ
grpc_to_raw writer incoming = copy_loop writer (suc (pending incoming)) [] incoming []
