-- ===== src/Auth.antt =====
-- vmess/auth.rs: the VMess key derivation, UUID parsing, and the check of a 16-byte Auth ID.
-- Bytes are numbers below 256; `none` from `create` and `kdf` stands for the panic of an `assert!`.
pub mod Kdf
pub mod Uuid
pub mod Verify
mod Tests
use Prim.Native.Nat.{bit_xor}
use mathlib.Core.Option
use tobira.Base.{
  ℕ, zero, suc, ◌+◌, ◌-◌, ◌*◌, ◌^◌, ◌≤◌, ◌≡◌, Bool, ◌&&◌, ◌||◌, Option, none, some, String, List,
  [], ◌∷◌, ◌++◌, leb, ltb, ◌==◌, if◌then◌else◌, length, take, drop, keep_if, codes, Result, ok, err,
  ◌>>=◌, and_then, not, false,
}

-- The cryptographic libraries. A SHA-256 state absorbs data piece by piece.
pub record Crypto : Type 1 where
  pub Sha256 : Type 0
  pub sha_new : Sha256
  pub sha_update : Sha256 → List ℕ → Sha256
  pub sha_finalize : Sha256 → List ℕ
  pub sha_update_append :
      (s : Sha256) (a b : List ℕ) → sha_update (sha_update s a) b ≡ sha_update s (a ++ b)
  pub md5 : List ℕ → List ℕ
  pub aes_decrypt : List ℕ → List ℕ → List ℕ
  pub crc32 : List ℕ → ℕ

-- A keyed hash over the hash states `H`.
pub record RecursiveHash (H : Type 0) : Type 0 where
  pub inner : H
  pub outer : H
  pub default_inner : List ℕ
  pub default_outer : List ℕ

-- `default_inner` and `default_outer`: 64 bytes `fill`, the first of them combined with the key.
unfoldable pub pad : ℕ → ℕ → List ℕ → List ℕ
pad zero fill key = []
pad (suc n) fill [] = fill ∷ pad n fill []
pad (suc n) fill (b ∷ key) = bit_xor fill b ∷ pad n fill key

abbrev pub inner_pad : List ℕ → List ℕ
inner_pad key = pad 64 0x36 key

abbrev pub outer_pad : List ℕ → List ℕ
outer_pad key = pad 64 0x5c key

pub data UuidError : Type 0 where
  wrong_length : ℕ → UuidError

unfoldable pub is_ascii_hexdigit : ℕ → Bool
is_ascii_hexdigit c =
    (leb b'0' c && leb c b'9') || (leb b'a' c && leb c b'f') || (leb b'A' c && leb c b'F')

-- The value of a hexadecimal digit.
pub hex_value : ℕ → ℕ
hex_value c = if leb b'a' c then c - 87 else if leb b'A' c then c - 55 else c - 48

-- `chunks(2)`, each read by `u8::from_str_radix(_, 16)`.
pub hex_bytes : List ℕ → List ℕ
hex_bytes [] = []
hex_bytes (a ∷ []) = hex_value a ∷ []
hex_bytes (a ∷ b ∷ hex) = (hex_value a * 16 + hex_value b) ∷ hex_bytes hex

pub parse_uuid : String → Result UuidError (List ℕ)
unfolding is_ascii_hexdigit hex_bytes hex_value
parse_uuid uuid =
    let hex = keep_if is_ascii_hexdigit (codes uuid) in
    if length hex == 32 then ok (hex_bytes hex) else err (wrong_length (length hex))

-- `u32::from_be_bytes` and `u64::from_be_bytes`.
abbrev pub be_value : ℕ → List ℕ → ℕ
be_value acc [] = acc
be_value acc (b ∷ bytes) = be_value (acc * 256 + b) bytes

abbrev pub abs_diff : ℕ → ℕ → ℕ
abs_diff a b = if ltb a b then b - a else a - b

pub record AuthVerifier : Type 0 where
  pub ecb_key : List ℕ

module _ (c : Crypto) where
  open c use {Sha256, sha_new, sha_update, sha_finalize, md5, aes_decrypt, crc32}

  -- `Box<dyn VmessHash>`: SHA-256 itself, or a keyed hash over the states one level down.
  abbrev pub VmessHash : ℕ → Type 0
  VmessHash zero = Sha256
  VmessHash (suc n) = RecursiveHash (VmessHash n)

  pub update : (n : ℕ) → VmessHash n → List ℕ → VmessHash n
  update zero s bytes = sha_update s bytes
  update (suc n) s bytes = record s { inner = update n s.inner bytes }

  -- `finalize(&mut self)`: the digest, and the state that it leaves.
  pub finalize : (n : ℕ) → VmessHash n → List ℕ × VmessHash n
  unfolding update
  finalize zero s = (sha_finalize s, s)
  finalize (suc n) s =
      let keyed = update n s.outer s.default_outer in
      let (inner_result, inner') = finalize n s.inner in
      let (result, outer') = finalize n (update n keyed inner_result) in
      (result, record s { inner = inner'; outer = outer' })

  pub create : (n : ℕ) → List ℕ → VmessHash n → Option (VmessHash (suc n))
  unfolding update
  create n key hash =
      if leb (length key) 64
      then some (record {
        inner = update n hash (inner_pad key);
        outer = hash;
        default_inner = inner_pad key;
        default_outer = outer_pad key;
      })
      else none

  -- The loop over the path of `kdf`, and what follows it.
  pub kdf_loop : (n : ℕ) → VmessHash n → List (List ℕ) → List ℕ → Option (List ℕ)
  unfolding create finalize
  kdf_loop n current [] key = some (finalize n (update n current key)).0
  kdf_loop n current (item ∷ path) key =
      and_then (create n item current) (λ next. kdf_loop (suc n) next path key)

  pub kdf : List ℕ → List (List ℕ) → Option (List ℕ)
  unfolding kdf_loop
  kdf key path =
      and_then (create 0 (codes "VMess AEAD KDF") sha_new) (λ first. kdf_loop 1 first path key)

  pub instruction_key : List ℕ → List ℕ
  instruction_key uuid_bytes = md5 (uuid_bytes ++ codes "c48619fe-8f02-49e0-b9e9-edf763e17e21")

  -- The label is short enough for `kdf` not to panic; the key of 16 bytes always fits AES-128.
  pub from_bytes : List ℕ → Option AuthVerifier
  unfolding kdf instruction_key
  from_bytes uuid_bytes =
      Option.map (λ derived. record { ecb_key = take 16 derived })
        (kdf (instruction_key uuid_bytes) (codes "AES Auth ID Encryption" ∷ []))

  -- `AuthVerifier::from_uuid`; `ok none` stands for a panic of `kdf`.
  unfoldable pub from_uuid : String → Result UuidError (Option AuthVerifier)
  unfolding parse_uuid from_bytes
  from_uuid uuid = do uuid_bytes ← parse_uuid uuid; ok (from_bytes uuid_bytes)

  -- `now` is the system clock in seconds.
  pub verify : ℕ → AuthVerifier → List ℕ → Bool
  verify now verifier auth_id =
      let decrypted = aes_decrypt verifier.ecb_key auth_id in
      let checksum = crc32 (take 12 decrypted) in
      let expected = be_value 0 (drop 12 decrypted) in
      let timestamp = be_value 0 (take 8 decrypted) in
      if not (checksum == expected) then false else leb (abs_diff now timestamp) 120
