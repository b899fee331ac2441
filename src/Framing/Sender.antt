-- ===== src/Framing/Sender.antt =====
-- relay/transport/grpc.rs: `send_grpc_data`, which sends within the peer's flow-control window.
pub mod Whole
mod Tests
use Prim.Native.Nat.{min}
use tobira.Base.{
  ℕ, zero, suc, ◌+◌, ◌*◌, Bool, true, false, ◌&&◌, List, [], ◌∷◌, ◌++◌, length, take, drop,
  is_empty, ◌==◌, Result, ok, err, ◌>>=◌,
}
use tobira.Framing.{frame_into}

-- What one wait for capacity brings: a window of some bytes, after which `send_data` succeeds or
-- fails; the stream's end; or an error of the connection.
pub data Window : Type 0 where
  granted : ℕ → Window
  refused : ℕ → Window
  closed : Window
  poll_failed : Window

pub data SendError : Type 0 where
  stream_closed : SendError
  capacity_error : SendError
  data_error : SendError

-- `waiting`: the windows that are given so far do not suffice.
pub data Sending : Type 0 where
  sent : Sending
  waiting : Sending
  aborted : SendError → Sending

-- A DATA frame: its bytes, and whether it ends the stream.
abbrev pub DataFrame : Type 0
DataFrame = List ℕ × Bool

-- The loop `while !data.is_empty()`: how it ends, the frames sent so far, and the bytes left.
unfoldable pub send_loop :
    Bool → List ℕ → List DataFrame → List Window → Sending × List DataFrame × List ℕ
send_loop end [] out windows = (sent, out, [])
send_loop end (x ∷ bytes) out [] = (waiting, out, x ∷ bytes)
send_loop end (x ∷ bytes) out (closed ∷ more) = (aborted stream_closed, out, x ∷ bytes)
send_loop end (x ∷ bytes) out (poll_failed ∷ more) = (aborted capacity_error, out, x ∷ bytes)
send_loop end (x ∷ bytes) out (granted zero ∷ more) = send_loop end (x ∷ bytes) out more
send_loop end (x ∷ bytes) out (granted (suc n) ∷ more) =
    let chunk = x ∷ take n bytes in
    let left = drop n bytes in send_loop end left (out ++ (chunk, end && is_empty left) ∷ []) more
send_loop end (x ∷ bytes) out (refused zero ∷ more) = send_loop end (x ∷ bytes) out more
send_loop end (x ∷ bytes) out (refused (suc n) ∷ more) = (aborted data_error, out, drop n bytes)

-- Nothing to send is sent at once, with no wait; `taken` says whether `send_data` takes it.
unfoldable pub send_grpc_data :
    Bool → List ℕ → Bool → List Window → Sending × List DataFrame × List ℕ
send_grpc_data true [] end windows = (sent, ([], end) ∷ [], [])
send_grpc_data false [] end windows = (aborted data_error, [], [])
send_grpc_data taken (x ∷ bytes) end windows = send_loop end (x ∷ bytes) [] windows
