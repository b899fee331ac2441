-- ===== src/Auth/Verify.antt =====
-- vmess/auth.rs: which Auth IDs a verifier accepts.
use tobira.Base.{
  ℕ, ◌+◌, ◌/◌, ◌%◌, ◌^◌, ◌≤◌, ◌<◌, ◌≡◌, ◌↔◌, sym, true, List, [], ◌∷◌, ◌++◌, arith, take, drop,
}
use tobira.Auth.{Crypto, AuthVerifier, verify, be_value}

-- The two times are at most two minutes apart.
abbrev pub IsRecent : ℕ → ℕ → Type 0
IsRecent now t = (now ≤ t + 120) × (t ≤ now + 120)

-- `to_be_bytes` of a u64 and of a u32.
abbrev pub be_bytes8 : ℕ → List ℕ
be_bytes8 n =
    (n / 2 ^ 56 % 256)
    ∷ (n / 2 ^ 48 % 256)
    ∷ (n / 2 ^ 40 % 256)
    ∷ (n / 2 ^ 32 % 256)
    ∷ (n / 2 ^ 24 % 256)
    ∷ (n / 2 ^ 16 % 256)
    ∷ (n / 2 ^ 8 % 256)
    ∷ (n % 256)
    ∷ []

abbrev pub be_bytes4 : ℕ → List ℕ
be_bytes4 n = (n / 2 ^ 24 % 256) ∷ (n / 2 ^ 16 % 256) ∷ (n / 2 ^ 8 % 256) ∷ (n % 256) ∷ []

be_value-be_bytes8 : (n : ℕ) → n < 2 ^ 64 → be_value 0 (be_bytes8 n) ≡ n
be_value-be_bytes8 n h = omega arith

be_value-be_bytes4 : (n : ℕ) → n < 2 ^ 32 → be_value 0 (be_bytes4 n) ≡ n
be_value-be_bytes4 n h = omega arith

module _ (c : Crypto) where
  open c use {aes_decrypt, crc32}

  -- An Auth ID is accepted exactly if the last four bytes of its decryption are the checksum of the
  -- twelve before them, and the time in the first eight is at most 120 seconds off.
  pub verify_iff :
      (now : ℕ) (v : AuthVerifier) (auth_id : List ℕ)
      → (verify c now v auth_id ≡ true) ↔ (
          (crc32 (take 12 (aes_decrypt v.ecb_key auth_id))
            ≡ be_value 0 (drop 12 (aes_decrypt v.ecb_key auth_id)))
          × IsRecent now (be_value 0 (take 8 (aes_decrypt v.ecb_key auth_id))))
  unfolding verify
  verify_iff now v auth_id = ground arith

  -- What a client encrypts: the time, four random bytes, and the checksum of both.
  abbrev pub plain_id : ℕ → ℕ → ℕ → ℕ → ℕ → List ℕ
  plain_id t p q r s =
      let head = be_bytes8 t ++ p ∷ q ∷ r ∷ s ∷ [] in head ++ be_bytes4 (crc32 head)

  -- The Auth ID that a client makes at time `t` with the verifier's key is accepted exactly while the
  -- clock is at most 120 seconds off, if AES decrypts what it encrypts and a checksum has 32 bits.
  pub verify_client :
      (aes_encrypt : List ℕ → List ℕ → List ℕ)
      → ((key block : List ℕ) → aes_decrypt key (aes_encrypt key block) ≡ block)
      → ((bytes : List ℕ) → crc32 bytes < 2 ^ 32)
      → (now t p q r s : ℕ) (v : AuthVerifier) → t < 2 ^ 64
      → (verify c now v (aes_encrypt v.ecb_key (plain_id t p q r s)) ≡ true) ↔ IsRecent now t
  verify_client aes_encrypt inverse width now t p q r s v fits =
      let head : List ℕ = be_bytes8 t ++ p ∷ q ∷ r ∷ s ∷ [] in
      let (to, from) =
        rw (inverse v.ecb_key (plain_id t p q r s)) at
          (verify_iff now v (aes_encrypt v.ecb_key (plain_id t p q r s))) in
      let time : be_value 0 (be_bytes8 t) ≡ t = be_value-be_bytes8 t fits in
      let sum : be_value 0 (be_bytes4 (crc32 head)) ≡ crc32 head =
        be_value-be_bytes4 (crc32 head) (width head) in
      (λ h. rw time at (to h).1, λ h. from (sym sum, rw time h))
