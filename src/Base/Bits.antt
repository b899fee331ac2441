-- ===== src/Base/Bits.antt =====
-- `|` and `&` as arithmetic: masks on one byte by evaluation, disjoint fields at every width.
use Prim.Native.Nat.{
  ℕ, zero, suc, ◌+◌, ◌*◌, ◌/◌, ◌%◌, ◌^◌, ◌≤◌, ◌<◌, max, bit_and, bit_or, digits, bit_or-bitwise,
}
use mathlib.Core.Path.{◌≡◌, refl, sym, ap, ◌∙◌}
use mathlib.Core.Bool.{Bool, true, ◌&&◌}
use native.Mathlib.Nat.{pow-suc}
use native.Mathlib.Omega.{arith}
use tobira.Base.Tests.{◌==◌, ==_iff}

-- The test passes on the numbers below the bound.
unfoldable pub passes : (ℕ → Bool) → ℕ → Bool
passes test zero = true
passes test (suc bound) = passes test bound && test bound

pub passes_at :
    (test : ℕ → Bool) (bound k : ℕ) → k < bound → passes test bound ≡ true → test k ≡ true
unfolding passes
passes_at test zero k below all = absurd (omega arith)
passes_at test (suc bound) k below all = ground (arith, passes_at test bound k)

pub bit_and_low7 : (b : ℕ) → b < 256 → bit_and b 0x7f ≡ b % 128
unfolding passes
bit_and_low7 b small = (==_iff _ _).0 (passes_at (λ k. bit_and k 0x7f == k % 128) 256 b small refl)

pub bit_or_top : (b : ℕ) → b < 128 → bit_or b 0x80 ≡ b + 128
unfolding passes
bit_or_top b small = (==_iff _ _).0 (passes_at (λ k. bit_or k 0x80 == k + 128) 128 b small refl)

-- The library's definition of `bit_or`, with the depth of its recursion.
abbrev joined : ℕ → ℕ → ℕ → ℕ
joined a b depth = digits (λ rest. rest) max depth a b

no_bits : (depth b : ℕ) → joined 0 b depth ≡ b
no_bits zero b = refl
no_bits (suc depth) b = refl

joined_deep :
    (depth a b : ℕ) → a ≤ depth → (other : ℕ) → a ≤ other → joined a b depth ≡ joined a b other
joined_deep depth zero b deep other far = no_bits depth b ∙ sym (no_bits other b)
joined_deep zero (suc a) b deep other far = absurd (omega arith)
joined_deep (suc depth) (suc a) b deep zero far = absurd (omega arith)
joined_deep (suc depth) (suc a) b deep (suc other) far =
    let half : suc a / 2 ≤ other = omega arith in
    omega (arith, joined_deep depth (suc a / 2) (b / 2) (omega arith) other half)

bit_or_step : (a b : ℕ) → bit_or a b ≡ bit_or (a / 2) (b / 2) * 2 + max (a % 2) (b % 2)
bit_or_step zero b =
    let whole : bit_or 0 b ≡ b = bit_or-bitwise 0 b in
    let half : bit_or 0 (b / 2) ≡ b / 2 = bit_or-bitwise 0 (b / 2) in omega arith
bit_or_step (suc a) b =
    let whole = bit_or-bitwise (suc a) b in
    let half = bit_or-bitwise (suc a / 2) (b / 2) in
    let same = joined_deep a (suc a / 2) (b / 2) (omega arith) (suc a / 2) (omega arith) in
    omega (arith, whole, half, same)

shift_suc : (s g : ℕ) → g * 2 ^ suc s ≡ 2 * (g * 2 ^ s)
shift_suc s g = omega (arith, ap (λ (t : ℕ). g * t) (pow-suc 2 s))

-- `x | (g << s)` where `x` has no bit from `s` on.
pub bit_or_above : (s x g : ℕ) → x < 2 ^ s → bit_or x (g * 2 ^ s) ≡ x + g * 2 ^ s
bit_or_above zero x g h =
    let e : x ≡ 0 = omega arith in rw e (bit_or-bitwise 0 (g * 1) ∙ omega arith)
bit_or_above (suc s) x g h =
    let e : g * 2 ^ suc s / 2 ≡ g * 2 ^ s = omega (arith, shift_suc s g) in
    bit_or_step x (g * 2 ^ suc s)
    ∙ rw e (
        omega (
          arith,
          shift_suc s g,
          pow-suc 2 s,
          bit_or_above s (x / 2) g (omega (arith, pow-suc 2 s)),
        ))

-- `|` sets no bit that neither side has.
pub bit_or-lt : (k a b : ℕ) → a < 2 ^ k → b < 2 ^ k → bit_or a b < 2 ^ k
bit_or-lt zero a b p q = let e : a ≡ 0 = omega arith in rw e (rw (bit_or-bitwise 0 b) q)
bit_or-lt (suc k) a b p q = omega (
  arith,
  bit_or_step a b,
  pow-suc 2 k,
  bit_or-lt k (a / 2) (b / 2) (omega (arith, pow-suc 2 k)) (omega (arith, pow-suc 2 k)),
)
