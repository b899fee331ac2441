-- ===== src/Validator/Tests.antt =====
-- vmess/validator.rs: concrete runs, and the theorems at concrete inputs.
use tobira.Base.{
  ℕ, ◌≡◌, ◌≢◌, ◌⊎◌, refl, none, some, true, false, String, List, [], ◌∷◌, ◌++◌, arith, map, All, ok,
  err, append_assoc, str_eq, eq_iff,
}
use tobira.Auth.{Crypto, pad, is_ascii_hexdigit, AuthVerifier, from_uuid}
use tobira.Auth.Uuid.{hex_digits, fold_case}
use tobira.Validator.{
  v4, grpc, Upstream, Validator, duplicate_uuid, make_verifier, new, new_loop, match_auth_id,
}
use tobira.Validator.Routing.{
  pair_of, AreDistinct, uuids, IsKeyed, IsFirst, Rejects, new-IsRouting, match_auth_id_cases,
  respelled,
}

-- A hash that keeps what it is given, a cipher that answers the key, and a checksum of 0.
abbrev plain : Crypto
plain = record {
  Sha256 = List ℕ;
  sha_new = [];
  sha_update = λ s bytes. s ++ bytes;
  sha_finalize = λ s. s;
  sha_update_append = λ s a b. append_assoc s a b;
  md5 = λ bytes. bytes;
  aes_decrypt = λ key block. block;
  crc32 = λ bytes. 0;
}

abbrev first_uuid : String
first_uuid = "550e8400-e29b-41d4-a716-446655440000"

abbrev first_in_capitals : String
first_in_capitals = "550E8400-E29B-41D4-A716-446655440000"

abbrev at_port : ℕ → Upstream
at_port p = record {
  addr = "10.0.0.1:443";
  parsed_addr = record { ip = v4 0x0a000001; port = p };
  transport = grpc "tun" "example.com" "https://example.com:443/tun/Tun";
  tcp_fast_open = false;
}

abbrev key : AuthVerifier
key = record {
  ecb_key = 10 ∷ 17 ∷ 57 ∷ 47 ∷ 47 ∷ 124 ∷ 29 ∷ 25 ∷ 29 ∷ 24 ∷ 124 ∷ 23 ∷ 24 ∷ 26 ∷ 92 ∷ 92 ∷ [];
}

made : make_verifier plain first_uuid ≡ ok key
unfolding make_verifier from_uuid pad
made = refl

abbrev table : Validator
table = record {
  entries = record { uuid = first_uuid; verifier = key; upstream = at_port 443 } ∷ [];
}

table-new : new plain ((first_uuid, at_port 443) ∷ []) ≡ ok table
unfolding new
table-new = rw made refl

twice :
    new plain ((first_uuid, at_port 1) ∷ (first_uuid, at_port 2) ∷ [])
    ≡ err (duplicate_uuid first_uuid)
unfolding new new_loop
twice = rw made refl

new-IsRouting_example :
    (map pair_of table.entries ≡ (first_uuid, at_port 443) ∷ [])
    × All (IsKeyed plain) table.entries
    × AreDistinct (uuids ((first_uuid, at_port 443) ∷ []))
new-IsRouting_example = new-IsRouting plain ((first_uuid, at_port 443) ∷ []) table table-new

-- Nine hundred seconds after the time in the Auth ID of zeros, nothing is found.
match_auth_id_cases_example :
    ((match_auth_id plain 900 table (0 ∷ []) ≡ none)
      × All (Rejects plain 900 (0 ∷ [])) table.entries)
    ⊎ ((x : Upstream) × (match_auth_id plain 900 table (0 ∷ []) ≡ some x)
        × IsFirst plain 900 (0 ∷ []) table.entries x)
match_auth_id_cases_example = match_auth_id_cases plain 900 (0 ∷ []) table

other_text : first_uuid ≢ first_in_capitals
other_text e = absurd (
    let t : str_eq first_uuid first_in_capitals ≡ true =
      (eq_iff first_uuid first_in_capitals).1 e in
    ground arith)

same_digits : map fold_case (hex_digits first_uuid) ≡ map fold_case (hex_digits first_in_capitals)
unfolding is_ascii_hexdigit
same_digits = refl

respelled_example :
    (v : Validator) × (new plain ((first_uuid, at_port 1) ∷ (first_in_capitals, at_port 2) ∷ [])
      ≡ ok v)
    × ((now : ℕ) (auth_id : List ℕ)
        → (match_auth_id plain now v auth_id ≡ none)
          ⊎ (match_auth_id plain now v auth_id ≡ some (at_port 1)))
respelled_example =
    respelled plain first_uuid first_in_capitals (at_port 1) (at_port 2) key other_text same_digits
      made
