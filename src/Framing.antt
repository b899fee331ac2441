-- ===== src/Framing.antt =====
-- relay/transport/grpc.rs, the framing: protobuf varints, gun-lite gRPC frames, and their decoder.
-- A byte string is a list of numbers below 256; `u64` and `usize` have 64 bits.
pub mod Varint
pub mod RoundTrip
pub mod Panics
pub mod Causes
pub mod Reader
pub mod Sender
pub mod Forward
mod Tests
use Prim.Native.Nat.{bit_and, bit_or}
use mathlib.Core.Logic.{dite}
use mathlib.Core.WellFounded.{Acc}
use native.Mathlib.Decide.{dec_lt}
use tobira.Base.{
  ℕ, zero, suc, ◌+◌, ◌-◌, ◌*◌, ◌/◌, ◌%◌, ◌^◌, ◌≤◌, ◌<◌, ◌≢◌, Bool, ◌&&◌, ◌||◌, Option, none, some,
  List, [], ◌∷◌, ◌++◌, arith, leb, ltb, ◌==◌, if◌then◌else◌, length, take, drop, Result, ok, err,
  ◌>>=◌,
}
use tobira.Base.Order.{lt_wf}
use tobira.Buf
use tobira.Buf.{BufPool, BytesMut}

abbrev pub IsU64 : ℕ → Type 0
IsU64 v = v < 2 ^ 64

pub shift_shrinks : (v : ℕ) → 127 < v → v / 128 < v
shift_shrinks v h = omega arith

-- `while v >= 0x80 { v >>= 7; n += 1; }`
unfoldable pub size_loop : (v : ℕ) → ℕ → Acc ◌<◌ v → ℕ
size_loop v n (Acc.intro _ smaller) =
    dite (dec_lt 127 v) (λ large. size_loop (v / 128) (n + 1) (smaller _ (shift_shrinks v large)))
      (λ _. n)

unfoldable pub varint_size : ℕ → ℕ
varint_size v = size_loop v 1 (lt_wf.apply v)

-- `v as u8` is `v % 256`, and `v >>= 7` is `v / 128`.
unfoldable pub write_loop : List ℕ → (v : ℕ) → Acc ◌<◌ v → List ℕ
write_loop buf v (Acc.intro _ smaller) =
    dite (dec_lt v 128) (λ _. buf ++ (v % 256) ∷ [])
      (λ large.
        write_loop (buf ++ bit_or (bit_and (v % 256) 0x7f) 0x80 ∷ []) (v / 128)
          (smaller _ (shift_shrinks v (omega arith))))

unfoldable pub write_varint : List ℕ → ℕ → List ℕ
write_varint buf v = write_loop buf v (lt_wf.apply v)

-- `result |= ((b & 0x7F) as u64) << shift`: what is shifted out of 64 bits is lost.
abbrev pub add_group : ℕ → ℕ → ℕ → ℕ
add_group result b shift = bit_or result (bit_and b 0x7f * 2 ^ shift % 2 ^ 64)

-- The value and the number of bytes read; `i` bytes stand before the list.
unfoldable pub read_loop : List ℕ → ℕ → ℕ → ℕ → Option (ℕ × ℕ)
read_loop [] result shift i = none
read_loop (b ∷ bytes) result shift i =
    let more = read_loop bytes (add_group result b shift) (shift + 7) (i + 1) in
    if leb 64 shift
    then none
    else if ltb b 0x80
    then some (add_group result b shift, i + 1)
    else more

unfoldable pub read_varint : List ℕ → Option (ℕ × ℕ)
read_varint bytes = read_loop bytes 0 0 0

-- `put_u32` and `u32::from_be_bytes`.
abbrev pub be_bytes : ℕ → List ℕ
be_bytes n = (n / 2 ^ 24 % 256) ∷ (n / 2 ^ 16 % 256) ∷ (n / 2 ^ 8 % 256) ∷ (n % 256) ∷ []

abbrev pub be_value : ℕ → ℕ → ℕ → ℕ → ℕ
be_value a b c d = a * 2 ^ 24 + b * 2 ^ 16 + c * 2 ^ 8 + d

abbrev pub outer_len : List ℕ → ℕ
outer_len payload = 1 + varint_size (length payload) + length payload

-- What `encode_grpc_frame` writes behind the bytes that the buffer holds already.
unfoldable pub frame_into : List ℕ → List ℕ → List ℕ
frame_into held payload =
    write_varint (((held ++ 0 ∷ []) ++ be_bytes (outer_len payload)) ++ 0x0a ∷ []) (length payload)
    ++ payload

-- The frame stands in a buffer of the pool, which is returned when the frame is dropped.
pub encode_grpc_frame : (ℕ → ℕ) → BufPool → List ℕ → List ℕ × BufPool
unfolding frame_into
encode_grpc_frame alloc pool payload =
    let (buf, rest) = Buf.get alloc pool (5 + outer_len payload) in
    (frame_into buf.bytes payload, rest)

-- `PooledFrameOwner::drop`, for an owner that holds a buffer or has been emptied.
pub drop_frame : BufPool → Option BytesMut → BufPool
drop_frame pool none = pool
drop_frame pool (some buf) = Buf.put pool (Buf.clear buf)

-- A slice or an addition that Rust stops by a panic.
pub data Panic : Type 0 where
  slice_order slice_end : Panic

-- `bytes[from..to]`
abbrev pub slice : List ℕ → ℕ → ℕ → Result Panic (List ℕ)
slice bytes from to =
    if ltb to from
    then err slice_order
    else if ltb (length bytes) to
    then err slice_end
    else ok (take (to - from) (drop from bytes))

-- The tail of `decode_gun_payload`, from the varint on. `data_start + inner_len` wraps around.
unfoldable pub decode_inner : List ℕ → ℕ × ℕ → Result Panic (Option (List ℕ))
decode_inner payload (inner_len, varint_len) =
    let data_start = 1 + varint_len in
    let data_end = (data_start + inner_len) % 2 ^ 64 in
    if ltb (length payload) data_end
    then ok none
    else do found ← slice payload data_start data_end; ok (some found)

unfoldable pub decode_gun_payload : List ℕ → Result Panic (Option (List ℕ))
unfolding decode_inner
decode_gun_payload [] = ok (some [])
decode_gun_payload (tag ∷ rest) =
    if tag == 0x0a
    then elim (read_varint rest) [ none ↦ ok none | some read ↦ decode_inner (tag ∷ rest) read ]
    else ok none

abbrev pub max_grpc_frame_size : ℕ
max_grpc_frame_size = 16 * 1024 * 1024

-- A frame's five bytes of header, and what follows.
unfoldable pub decode_grpc_frame_data : List ℕ → Result Panic (Option (List ℕ))
unfolding decode_gun_payload
decode_grpc_frame_data (flag ∷ a ∷ b ∷ c ∷ d ∷ body) =
    let outer = be_value a b c d in
    if ltb max_grpc_frame_size outer || ltb (length body) outer
    then ok none
    else decode_gun_payload (take outer body)
decode_grpc_frame_data frame = ok none
