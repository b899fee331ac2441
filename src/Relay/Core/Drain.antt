-- ===== src/Relay/Core/Drain.antt =====
-- relay/core.rs: `drain_and_close`, for a stream whose Auth ID is not known.
use Prim.Native.Nat.{min}
use tobira.Base.{ℕ, ◌≤◌, Option, none, some, List, [], arith, take, length, length-take}
use tobira.Buf
use tobira.Buf.{BytesMut, BufPool}
use tobira.Buf.Keeps.{IsValid, get-IsValid, put-IsValid}

-- What one read brings within five seconds, if anything.
abbrev delivered_bytes : Option (List ℕ) → List ℕ
delivered_bytes none = []
delivered_bytes (some bytes) = bytes

-- The buffer after the read, which fills at most `drain_len` of it and no more than it has room for.
pub drained : ℕ → Option (List ℕ) → BytesMut → BytesMut
drained drain_len delivered buf = record buf {
  bytes = take (min drain_len buf.capacity) (delivered_bytes delivered);
}

-- The pool afterwards; `drain_len` is the random number from 64 to 511.
pub drain_and_close : (ℕ → ℕ) → ℕ → Option (List ℕ) → BufPool → BufPool
unfolding drained
drain_and_close alloc drain_len delivered pool =
    let (buf, rest) = Buf.get alloc pool drain_len in Buf.put rest (drained drain_len delivered buf)

-- However much the client sends, no more than `drain_len` bytes are held for it, and no more than the
-- buffer has room for.
drained-length :
    (drain_len : ℕ) (delivered : Option (List ℕ)) (buf : BytesMut)
    → (length (drained drain_len delivered buf).bytes ≤ drain_len)
      × (length (drained drain_len delivered buf).bytes ≤ buf.capacity)
unfolding drained
drained-length drain_len delivered buf =
    let filled = length-take (min drain_len buf.capacity) (delivered_bytes delivered) in
    (omega (arith, filled), omega (arith, filled))

-- Draining keeps the pool of buffers valid, so that refused clients cannot fill it up.
drain_and_close-IsValid :
    (alloc : ℕ → ℕ) (drain_len : ℕ) (delivered : Option (List ℕ)) (pool : BufPool)
    → IsValid pool
    → IsValid (drain_and_close alloc drain_len delivered pool)
unfolding drain_and_close
drain_and_close-IsValid alloc drain_len delivered pool v =
    put-IsValid (Buf.get alloc pool drain_len).1
      (drained drain_len delivered (Buf.get alloc pool drain_len).0)
      (get-IsValid alloc pool drain_len v)
