-- ===== src/Http/Links/Percent.antt =====
-- http/server.rs: percent encoding, and reading it back.
use Prim.Native.Nat.{bit_and}
use tobira.Base.{
  ℕ, ◌+◌, ◌-◌, ◌*◌, ◌/◌, ◌<◌, ◌≡◌, refl, ap, true, false, ◌||◌, List, [], ◌∷◌, All, arith, leb,
  ◌==◌, ==_iff, get_or, if◌then◌else◌, Bool-cases, inl, inr,
}
use tobira.Http.Links.{is_unreserved, hex_digits, percent_encode_query_component}
use tobira.Base.Bits.{passes, passes_at}

-- The value of a hexadecimal digit with capital letters.
abbrev pub digit_value : ℕ → ℕ
digit_value c = if leb c b'9' then c - 48 else c - 55

-- Where a reader of the query stands: between characters, behind a `%`, or behind its first digit.
pub data Mode : Type 0 where
  between : Mode
  escaped : Mode
  half : ℕ → Mode

pub percent_decode : Mode → List ℕ → List ℕ
percent_decode mode [] = []
percent_decode between (c ∷ text) =
    let special = percent_decode escaped text in
    let plain = c ∷ percent_decode between text in if c == b'%' then special else plain
percent_decode escaped (c ∷ text) = percent_decode (half (digit_value c)) text
percent_decode (half high) (c ∷ text) = (high * 16 + digit_value c) ∷ percent_decode between text

abbrev escape : ℕ → ℕ
escape b =
    digit_value (get_or hex_digits (b / 16) 0) * 16
    + digit_value (get_or hex_digits (bit_and b 0x0f) 0)

two_digits : (b : ℕ) → b < 256 → escape b ≡ b
unfolding passes
two_digits b small = (==_iff _ _).0 (passes_at (λ k. escape k == k) 256 b small refl)

not_percent : (b : ℕ) → is_unreserved b ≡ true → (b == b'%') ≡ false
unfolding is_unreserved
not_percent b h = ground arith

-- What is percent-encoded is read back as the same bytes.
pub decode-percent_encode :
    (bytes : List ℕ)
    → All (λ b. b < 256) bytes
    → percent_decode between (percent_encode_query_component bytes) ≡ bytes
unfolding percent_decode percent_encode_query_component
decode-percent_encode [] h = refl
decode-percent_encode (b ∷ bytes) (small, h) = elim (Bool-cases (is_unreserved b)) [
  | inl kept ↦
      let plain = not_percent b kept in
      rw (kept, percent_encode_query_component)
        (rw (plain, percent_decode) (ap (λ t. b ∷ t) (decode-percent_encode bytes h)))
  | inr replaced ↦
      rw (replaced, percent_encode_query_component)
        (rw (two_digits b small, percent_decode) (ap (λ t. b ∷ t) (decode-percent_encode bytes h)))
]

-- A character that an encoded text may hold: an unreserved one, or the `%` of an escape. None of
-- these is one of the separators `&`, `=`, `#` and `?` of a query.
abbrev pub IsQuerySafe : ℕ → Type 0
IsQuerySafe c = (is_unreserved c || c == b'%') ≡ true

hex_digits-safe :
    (b : ℕ)
    → b < 256
    → IsQuerySafe (get_or hex_digits (b / 16) 0)
      × IsQuerySafe (get_or hex_digits (bit_and b 0x0f) 0)
unfolding passes is_unreserved
hex_digits-safe b small = (
  passes_at
      (λ k. is_unreserved (get_or hex_digits (k / 16) 0) || get_or hex_digits (k / 16) 0 == b'%')
      256 b small refl,
  passes_at
      (λ k.
        is_unreserved (get_or hex_digits (bit_and k 0x0f) 0)
        || get_or hex_digits (bit_and k 0x0f) 0 == b'%')
      256 b small refl,
)

safe_plain : (b : ℕ) → is_unreserved b ≡ true → IsQuerySafe b
safe_plain b h = rw h refl

percent_safe : IsQuerySafe b'%'
unfolding is_unreserved
percent_safe = refl

-- An encoded text holds nothing but unreserved characters and `%`, so no separator of the query.
pub percent_encode-IsQuerySafe :
    (bytes : List ℕ)
    → All (λ b. b < 256) bytes
    → All IsQuerySafe (percent_encode_query_component bytes)
unfolding percent_encode_query_component
percent_encode-IsQuerySafe [] h = tt
percent_encode-IsQuerySafe (b ∷ bytes) (small, h) = elim (Bool-cases (is_unreserved b)) [
  | inl kept ↦
      rw (kept, percent_encode_query_component)
        (safe_plain b kept, percent_encode-IsQuerySafe bytes h)
  | inr replaced ↦
      let (high, low) = hex_digits-safe b small in
      rw (replaced, percent_encode_query_component)
        (percent_safe, (high, (low, percent_encode-IsQuerySafe bytes h)))
]
