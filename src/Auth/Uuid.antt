-- ===== src/Auth/Uuid.antt =====
-- vmess/auth.rs: what `parse_uuid` accepts, and which texts it reads as the same UUID.
use tobira.Base.{
  ℕ, zero, suc, ◌+◌, ◌*◌, ◌<◌, ◌≡◌, ◌≢◌, refl, ap, true, ◌&&◌, String, List, [], ◌∷◌, arith, leb,
  if◌then◌else◌, length, map, keep_if, codes, All, ok, err,
}
use tobira.Auth.{
  Crypto, from_uuid, is_ascii_hexdigit, hex_value, hex_bytes, parse_uuid, wrong_length,
}

-- The hexadecimal digits of a text, in order.
abbrev pub hex_digits : String → List ℕ
hex_digits uuid = keep_if is_ascii_hexdigit (codes uuid)

-- "A" to "F" as "a" to "f".
abbrev pub fold_case : ℕ → ℕ
fold_case c = if leb b'A' c && leb c b'F' then c + 32 else c

hex_value-fold_case : (c : ℕ) → hex_value (fold_case c) ≡ hex_value c
unfolding hex_value
hex_value-fold_case c = ground arith

hex_bytes-fold_case : (hex : List ℕ) → hex_bytes (map fold_case hex) ≡ hex_bytes hex
unfolding hex_bytes
hex_bytes-fold_case [] = refl
hex_bytes-fold_case (a ∷ []) = rw (hex_value-fold_case a)
hex_bytes-fold_case (a ∷ b ∷ hex) =
    rw (hex_value-fold_case a, hex_value-fold_case b, hex_bytes-fold_case hex)

length-map_fold : (hex : List ℕ) → length (map fold_case hex) ≡ length hex
length-map_fold [] = refl
length-map_fold (c ∷ hex) = ap suc (length-map_fold hex)

-- Texts with the same hexadecimal digits, in whatever case and with whatever other characters
-- between them, are the same UUID, or are both refused.
pub parse_uuid_same :
    (u v : String)
    → map fold_case (hex_digits u) ≡ map fold_case (hex_digits v)
    → parse_uuid u ≡ parse_uuid v
unfolding parse_uuid
parse_uuid_same u v e =
    let bytes : hex_bytes (hex_digits u) ≡ hex_bytes (hex_digits v) =
      rw (← hex_bytes-fold_case (hex_digits u), ← hex_bytes-fold_case (hex_digits v), e) in
    let len : length (hex_digits u) ≡ length (hex_digits v) =
      rw (← length-map_fold (hex_digits u), ← length-map_fold (hex_digits v), e) in
    rw (bytes, len)

hex_value-lt : (c : ℕ) → is_ascii_hexdigit c ≡ true → hex_value c < 16
unfolding is_ascii_hexdigit hex_value
hex_value-lt c h = ground arith

keep_if-All : (cs : List ℕ) → All (λ c. is_ascii_hexdigit c ≡ true) (keep_if is_ascii_hexdigit cs)
keep_if-All [] = tt
keep_if-All (c ∷ cs) = ground (arith, keep_if-All cs)

hex_bytes_shape :
    (n : ℕ) (hex : List ℕ)
    → All (λ c. is_ascii_hexdigit c ≡ true) hex
    → length hex ≡ 2 * n
    → (length (hex_bytes hex) ≡ n) × All (λ b. b < 256) (hex_bytes hex)
unfolding hex_bytes
hex_bytes_shape zero [] h e = (refl, tt)
hex_bytes_shape zero (a ∷ hex) h e = absurd (omega arith)
hex_bytes_shape (suc n) [] h e = absurd (omega arith)
hex_bytes_shape (suc n) (a ∷ []) h e = absurd (omega arith)
hex_bytes_shape (suc n) (a ∷ b ∷ hex) (p, (q, h)) e =
    let (len, bytes) = hex_bytes_shape n hex h (omega arith) in
    (ap suc len, (omega (arith, hex_value-lt a p, hex_value-lt b q), bytes))

-- A text with 32 hexadecimal digits is read as 16 bytes, and any other is refused with the number of
-- its digits.
pub parse_uuid_cases :
    (uuid : String)
    → (length (hex_digits uuid) ≡ 32
        → (parse_uuid uuid ≡ ok (hex_bytes (hex_digits uuid)))
          × (length (hex_bytes (hex_digits uuid)) ≡ 16)
          × All (λ b. b < 256) (hex_bytes (hex_digits uuid)))
      × (length (hex_digits uuid) ≢ 32
          → parse_uuid uuid ≡ err (wrong_length (length (hex_digits uuid))))
unfolding parse_uuid
parse_uuid_cases uuid = (
  λ h.
      let (len, bytes) =
        hex_bytes_shape 16 (hex_digits uuid) (keep_if-All (codes uuid)) (omega arith) in
      (rw h, len, bytes),
  λ h. ground arith,
)

pub from_uuid_same :
    (c : Crypto) (u v : String)
    → map fold_case (hex_digits u) ≡ map fold_case (hex_digits v)
    → from_uuid c u ≡ from_uuid c v
unfolding from_uuid
from_uuid_same c u v e = rw (parse_uuid_same u v e)
