-- ===== src/Auth/Tests.antt =====
-- vmess/auth.rs: concrete runs, and the theorems at concrete inputs.
use tobira.Base.{
  ℕ, ◌≡◌, ◌↔◌, refl, some, true, false, String, List, [], ◌∷◌, ◌++◌, arith, codes, ok, err,
  append_assoc,
}
use tobira.Auth.{Crypto, AuthVerifier, parse_uuid, wrong_length, kdf, verify}
use tobira.Auth.Kdf.{hmac, hmac_chain, kdf-hmac}
use tobira.Auth.Verify.{IsRecent, plain_id, verify_client}

-- A hash that lists what it absorbs, a cipher that changes nothing, and a constant checksum.
abbrev plain : Crypto
plain = record {
  Sha256 = List ℕ;
  sha_new = [];
  sha_update = λ s bytes. s ++ bytes;
  sha_finalize = λ s. s;
  sha_update_append = λ s a b. append_assoc s a b;
  md5 = λ bytes. bytes;
  aes_decrypt = λ key block. block;
  crc32 = λ bytes. 99;
}

abbrev dashed : String
dashed = "550e8400-e29b-41d4-a716-446655440000"

dashed_bytes :
    parse_uuid dashed
    ≡ ok (
        0x55 ∷ 0x0e ∷ 0x84 ∷ 0 ∷ 0xe2 ∷ 0x9b ∷ 0x41 ∷ 0xd4 ∷ 0xa7 ∷ 0x16 ∷ 0x44 ∷ 0x66 ∷ 0x55 ∷ 0x44
        ∷ 0 ∷ 0 ∷ [])
unfolding parse_uuid
dashed_bytes = refl

not_a_uuid : parse_uuid "not-a-uuid" ≡ err (wrong_length 2)
unfolding parse_uuid
not_a_uuid = refl

kdf-hmac_example :
    kdf plain (1 ∷ 2 ∷ []) ((3 ∷ []) ∷ [])
    ≡ some (hmac_chain (hmac (λ m. m) (codes "VMess AEAD KDF")) ((3 ∷ []) ∷ []) (1 ∷ 2 ∷ []))
kdf-hmac_example = kdf-hmac plain (1 ∷ 2 ∷ []) ((3 ∷ []) ∷ [])

abbrev any_key : AuthVerifier
any_key = record { ecb_key = [] }

verify_client_example :
    (verify plain 1100 any_key (plain_id plain 1000 7 7 7 7) ≡ true) ↔ IsRecent 1100 1000
verify_client_example =
    verify_client plain (λ key block. block) (λ key block. refl) (λ bytes. omega arith) 1100 1000 7
      7 7 7 any_key (omega arith)

late : verify plain 1121 any_key (plain_id plain 1000 7 7 7 7) ≡ false
unfolding verify
late = refl
