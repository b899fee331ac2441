-- ===== src/Framing/Forward.antt =====
-- relay/transport/grpc.rs: `raw_to_grpc` and `grpc_frames_to_grpc`, the loops that send a raw
-- connection, or the frames of another stream, into a gRPC stream.
pub mod Delivery
pub mod Passing
mod Tests
use tobira.Base.{
  ℕ, zero, suc, ◌+◌, ◌*◌, Bool, true, false, Option, none, some, List, [], ◌∷◌, ◌++◌, ok, err,
}
use tobira.Framing.{frame_into}
use tobira.Framing.Reader.{Recv, ReadError, next_frame, pending}
use tobira.Framing.Sender.{
  Window, SendError, Sending, sent, waiting, aborted, DataFrame, send_grpc_data,
}

abbrev pub raw_to_grpc_read_buf_size : ℕ
raw_to_grpc_read_buf_size = 16 * 1024

-- What the peer does with one call of `send_grpc_data`.
pub record Peer : Type 0 where
  pub taken : Bool
  pub windows : List Window

-- A read of the raw connection: no bytes at its end, or an error; and the peer's part in the call
-- that sends what was read.
pub data Read : Type 0 where
  received : List ℕ → Peer → Read
  broken : Read

-- How a loop ends, or where it waits; `out_of_fuel` stands for fuel that ran out.
pub data Forwarded : Type 0 where
  finished : Forwarded
  awaiting_read : Forwarded
  awaiting_window : Forwarded
  raw_failed : Forwarded
  frame_failed : ReadError → Forwarded
  send_failed : SendError → Forwarded
  out_of_fuel : Forwarded

-- The last send of both loops: the empty frame that ends the stream. Its result is dropped.
unfoldable pub finish : Peer → List DataFrame → Forwarded × List DataFrame
finish peer out =
    let (how, frames, left) = send_grpc_data peer.taken [] true peer.windows in
    (finished, out ++ frames)

-- The frame is built in a buffer of the pool, which is handed out empty.
unfoldable pub raw_to_grpc : List Read → List DataFrame → Forwarded × List DataFrame
raw_to_grpc [] out = (awaiting_read, out)
raw_to_grpc (broken ∷ reads) out = (raw_failed, out)
raw_to_grpc (received [] peer ∷ reads) out = finish peer out
raw_to_grpc (received (x ∷ bytes) peer ∷ reads) out =
    let (how, frames, left) =
      send_grpc_data peer.taken (frame_into [] (x ∷ bytes)) false peer.windows in
    elim how [
      | sent ↦ raw_to_grpc reads (out ++ frames)
      | waiting ↦ (awaiting_window, out ++ frames)
      | aborted e ↦ (send_failed e, out ++ frames)
    ]

-- The frames are passed on as they stand, without a look at what they hold. Where no peer is
-- listed for a call, the call waits.
unfoldable pub forward_loop :
    ℕ → List ℕ → List Recv → List Peer → List DataFrame → Forwarded × List DataFrame
forward_loop zero buf incoming peers out = (out_of_fuel, out)
forward_loop (suc fuel) buf incoming [] out = (awaiting_window, out)
forward_loop (suc fuel) buf incoming (peer ∷ peers) out =
    let (answer, rest, more) = next_frame buf incoming in
    elim answer [
      | err e ↦ (frame_failed e, out)
      | ok none ↦ finish peer out
      | ok (some frame) ↦
          let (how, frames, left) = send_grpc_data peer.taken frame false peer.windows in
          elim how [
            | sent ↦ forward_loop fuel rest more peers (out ++ frames)
            | waiting ↦ (awaiting_window, out ++ frames)
            | aborted e ↦ (send_failed e, out ++ frames)
          ]
    ]

unfoldable pub grpc_frames_to_grpc : List Recv → List Peer → Forwarded × List DataFrame
grpc_frames_to_grpc incoming peers = forward_loop (suc (pending incoming)) [] incoming peers []
