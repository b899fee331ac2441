-- ===== src/Framing/Varint.antt =====
-- relay/transport/grpc.rs: the varint writer, its size function and the reader agree.
use Prim.Native.Nat.{bit_and, bit_or}
use mathlib.Core.WellFounded.{Acc}
use native.Mathlib.Nat.{div-add-mod}
use native.Mathlib.Numerals.{towards_suc}
use tobira.Base.{
  ℕ, zero, suc, ◌+◌, ◌*◌, ◌/◌, ◌%◌, ◌^◌, ◌≤◌, ◌<◌, ◌≡◌, ap, ◌∙◌, some, List, [], ◌∷◌, ◌++◌, arith,
  ltb, if◌then◌else◌, length, length-append, All, append_assoc,
}
use tobira.Base.Bits.{bit_and_low7, bit_or_top, bit_or_above, bit_or-lt}
use tobira.Base.Order.{lt_wf}
use tobira.Framing.{
  IsU64, size_loop, varint_size, write_loop, write_varint, add_group, read_loop, read_varint,
}

-- The encoding in plain arithmetic: seven bits a byte, lowest first, for `v` below 128 ^ (k + 1).
pub groups : ℕ → ℕ → List ℕ
groups zero v = v ∷ []
groups (suc k) v =
    let rest = groups k (v / 128) in if ltb v 128 then v ∷ [] else (v % 128 + 128) ∷ rest

low_group : (v : ℕ) → bit_or (bit_and (v % 256) 0x7f) 0x80 ≡ v % 128 + 128
low_group v = rw (bit_and_low7 (v % 256) (omega arith)) (bit_or_top _ (omega arith) ∙ omega arith)

write_loop-groups :
    (k : ℕ) (buf : List ℕ) (v : ℕ) (w : Acc ◌<◌ v)
    → v < 128 ^ suc k
    → write_loop buf v w ≡ buf ++ groups k v
unfolding write_loop groups
write_loop-groups zero buf v (Acc.intro _ smaller) h = grind arith
write_loop-groups (suc k) buf v (Acc.intro _ smaller) h =
    let head : List ℕ = (v % 128 + 128) ∷ [] in
    grind (
      arith,
      low_group v,
      λ (w : Acc ◌<◌ (v / 128)). write_loop-groups k (buf ++ head) (v / 128) w (omega arith),
      append_assoc buf head (groups k (v / 128)),
    )

size_loop-groups :
    (k v n : ℕ) (w : Acc ◌<◌ v) → v < 128 ^ suc k → size_loop v n w + 1 ≡ n + length (groups k v)
unfolding size_loop groups
size_loop-groups zero v n (Acc.intro _ smaller) h = grind arith
size_loop-groups (suc k) v n (Acc.intro _ smaller) h =
    grind (arith, λ (w : Acc ◌<◌ (v / 128)). size_loop-groups k (v / 128) (n + 1) w (omega arith))

-- On every u64 the writer keeps what the buffer holds and appends the encoding.
pub write_varint-groups : (buf : List ℕ) (v : ℕ) → IsU64 v → write_varint buf v ≡ buf ++ groups 9 v
unfolding write_varint
write_varint-groups buf v h = write_loop-groups 9 buf v _ (omega arith)

length-groups : (k v : ℕ) → (1 ≤ length (groups k v)) × (length (groups k v) ≤ k + 1)
unfolding groups
length-groups zero v = omega arith
length-groups (suc k) v = ground (arith, length-groups k (v / 128))

groups_bytes : (k v : ℕ) → v < 128 ^ suc k → All (λ b. b < 256) (groups k v)
unfolding groups
groups_bytes zero v h = omega arith
groups_bytes (suc k) v h = ground (arith, groups_bytes k (v / 128) (omega arith))

pub varint_size-groups : (v : ℕ) → IsU64 v → varint_size v ≡ length (groups 9 v)
unfolding varint_size
varint_size-groups v h = omega (arith, size_loop-groups 9 v 1 (lt_wf.apply v) (omega arith))

-- The size function counts the bytes that the writer appends, and they are 1 to 10 bytes.
pub length-write_varint :
    (buf : List ℕ) (v : ℕ)
    → IsU64 v
    → (length (write_varint buf v) ≡ length buf + varint_size v)
      × (1 ≤ varint_size v)
      × (varint_size v ≤ 10)
length-write_varint buf v h =
    let (lo, hi) = length-groups 9 v in
    rw (write_varint-groups buf v h, varint_size-groups v h)
      (length-append buf (groups 9 v), lo, hi)

-- One round of the reader, on a last byte and on a byte with the top bit set.
last_byte :
    (g result shift i : ℕ) (rest : List ℕ)
    → g < 128
    → shift < 64
    → result < 2 ^ shift
    → IsU64 (result + g * 2 ^ shift)
    → read_loop (g ∷ rest) result shift i ≡ some (result + g * 2 ^ shift, i + 1)
unfolding read_loop
last_byte g result shift i rest hg hs low fits =
    ground (arith, bit_and_low7 g, bit_or_above shift result g low)

inner_byte :
    (g result shift i : ℕ) (rest : List ℕ)
    → g < 128
    → shift < 64
    → result < 2 ^ shift
    → IsU64 (result + g * 2 ^ shift)
    → read_loop ((g + 128) ∷ rest) result shift i
      ≡ read_loop rest (result + g * 2 ^ shift) (shift + 7) (i + 1)
unfolding read_loop
inner_byte g result shift i rest hg hs low fits =
    ground (arith, bit_and_low7 (g + 128), bit_or_above shift result g low)

next_weight : (s : ℕ) → 2 ^ (s + 7) ≡ 128 * 2 ^ s
next_weight s = simp towards_suc (omega arith)

-- What is left to read, as the lowest group and the rest at their weights.
weigh : (w s : ℕ) → w % 128 * 2 ^ s + w / 128 * 2 ^ (s + 7) ≡ w * 2 ^ s
weigh w s = rw (next_weight s) (omega (arith, ap (λ (t : ℕ). t * 2 ^ s) (div-add-mod w 128)))

mul_mono : (a b c : ℕ) → a ≤ b → a * c ≤ b * c
mul_mono a b c h = grind arith

-- After a group has been added, the value is still below the weight of the next group.
add_group_below : (w result s : ℕ) → result < 2 ^ s → result + w % 128 * 2 ^ s < 2 ^ (s + 7)
add_group_below w result s low = rw (next_weight s) (
    let h : w % 128 * 2 ^ s ≤ 127 * 2 ^ s = mul_mono (w % 128) 127 (2 ^ s) (omega arith) in
    omega arith)

-- `w` is what is still to be read, and it counts from bit `shift` on.
read_loop-groups :
    (k w result shift i : ℕ) (rest : List ℕ)
    → w < 128 ^ suc k
    → shift + 7 * k < 64
    → result < 2 ^ shift
    → IsU64 (result + w * 2 ^ shift)
    → read_loop (groups k w ++ rest) result shift i
      ≡ some (result + w * 2 ^ shift, i + length (groups k w))
unfolding groups
read_loop-groups zero w result shift i rest hw hs low fits =
    last_byte w result shift i rest hw (omega arith) low fits
read_loop-groups (suc k) w result shift i rest hw hs low fits = ground (
  arith,
  last_byte w result shift i rest,
  weigh w shift,
  add_group_below w result shift low,
  inner_byte (w % 128) result shift i (groups k (w / 128) ++ rest),
  read_loop-groups k (w / 128) (result + w % 128 * 2 ^ shift) (shift + 7) (i + 1) rest,
)

-- The reader gives back every u64 that the writer wrote, whatever follows it, with the number of
-- bytes that the size function announces.
pub read-write_varint :
    (v : ℕ) (rest : List ℕ)
    → IsU64 v
    → read_varint (write_varint [] v ++ rest) ≡ some (v, varint_size v)
unfolding read_varint
read-write_varint v rest h =
    rw (write_varint-groups [] v h, varint_size-groups v h)
      (read_loop-groups 9 v 0 0 0 rest (omega arith) (omega arith) (omega arith) (omega arith)
        ∙ ground arith)

-- What the reader returns of any bytes: a u64, read from 1 to 10 bytes of the input.
read_loop_bounds :
    (bytes : List ℕ) (result shift i v n : ℕ)
    → read_loop bytes result shift i ≡ some (v, n)
    → IsU64 result
    → shift ≡ 7 * i
    → IsU64 v × (i < n) × (n ≤ i + length bytes) × (n ≤ 10)
unfolding read_loop
read_loop_bounds [] result shift i v n e low hs = cc
read_loop_bounds (b ∷ bytes) result shift i v n e low hs = ground (
  arith,
  bit_or-lt 64 result (bit_and b 0x7f * 2 ^ shift % 2 ^ 64) low (omega arith),
  read_loop_bounds bytes (add_group result b shift) (shift + 7) (i + 1) v n,
)

-- A number that is read has 64 bits at most, and is read from between one and ten of the bytes there.
pub read_varint_bounds :
    (bytes : List ℕ) (v n : ℕ)
    → read_varint bytes ≡ some (v, n)
    → IsU64 v × (1 ≤ n) × (n ≤ length bytes) × (n ≤ 10)
unfolding read_varint
read_varint_bounds bytes v n e = omega (arith, read_loop_bounds bytes 0 0 0 v n e)
