-- ===== src/Auth/Kdf.antt =====
-- vmess/auth.rs: the chain of hash objects in `kdf` computes nested HMACs.
use mathlib.Core.Path.{fun_ext}
use tobira.Base.{
  ℕ, zero, suc, ◌≡◌, refl, ◌∙◌, none, some, Bool, true, false, inl, inr, Bool-cases, List, [], ◌∷◌,
  ◌++◌, leb, if◌then◌else◌, length, codes, ◌&&◌,
}
use tobira.Auth.{Crypto, VmessHash, update, finalize, create, kdf_loop, kdf, inner_pad, outer_pad}

-- HMAC over any hash function, with a key of at most 64 bytes.
pub hmac : (List ℕ → List ℕ) → List ℕ → List ℕ → List ℕ
hmac hash key message = hash (outer_pad key ++ hash (inner_pad key ++ message))

-- The hash function keyed by each item of a path in turn.
pub hmac_chain : (List ℕ → List ℕ) → List (List ℕ) → List ℕ → List ℕ
hmac_chain hash [] message = hash message
hmac_chain hash (item ∷ path) message = hmac_chain (hmac hash item) path message

abbrev pub short_items : List (List ℕ) → Bool
short_items [] = true
short_items (item ∷ path) = leb (length item) 64 && short_items path

module _ (c : Crypto) where
  open c use {sha_new, sha_update, sha_finalize, sha_update_append}

  update_append :
      (n : ℕ) (s : VmessHash c n) (a b : List ℕ)
      → update c n (update c n s a) b ≡ update c n s (a ++ b)
  unfolding update
  update_append zero s a b = sha_update_append s a b
  update_append (suc n) s a b = λ i. record s { inner = update_append n s.inner a b i }

  -- What a state computes of the data that it still absorbs.
  pub digest : (n : ℕ) → VmessHash c n → List ℕ → List ℕ
  digest n s message = (finalize c n (update c n s message)).0

  -- The object that `create` builds over the state `hash`, if the key is short enough.
  abbrev keyed : (n : ℕ) → List ℕ → VmessHash c n → VmessHash c (suc n)
  keyed n key hash = record {
    inner = update c n hash (inner_pad key);
    outer = hash;
    default_inner = inner_pad key;
    default_outer = outer_pad key;
  }

  digest-keyed :
      (n : ℕ) (key : List ℕ) (hash : VmessHash c n) (message : List ℕ)
      → digest (suc n) (keyed n key hash) message ≡ hmac (digest n hash) key message
  unfolding digest finalize hmac update
  digest-keyed n key hash message =
      rw (update_append n hash (inner_pad key) message) (rw (update_append n hash (outer_pad key)))

  digest-keyed_ext :
      (n : ℕ) (key : List ℕ) (hash : VmessHash c n)
      → digest (suc n) (keyed n key hash) ≡ hmac (digest n hash) key
  digest-keyed_ext n key hash = fun_ext (digest-keyed n key hash)

  create_short :
      (n : ℕ) (key : List ℕ) (hash : VmessHash c n)
      → leb (length key) 64 ≡ true
      → create c n key hash ≡ some (keyed n key hash)
  unfolding create
  create_short n key hash h = rw (h, create)

  create_long :
      (n : ℕ) (key : List ℕ) (hash : VmessHash c n)
      → leb (length key) 64 ≡ false
      → create c n key hash ≡ none
  unfolding create
  create_long n key hash h = rw (h, create)

  kdf_loop-hmac :
      (path : List (List ℕ)) (n : ℕ) (current : VmessHash c n) (key : List ℕ)
      → kdf_loop c n current path key
        ≡ (if short_items path then some (hmac_chain (digest n current) path key) else none)
  unfolding kdf_loop hmac_chain
  kdf_loop-hmac [] n current key = unfold digest in refl
  kdf_loop-hmac (item ∷ path) n current key = elim (Bool-cases (leb (length item) 64)) [
    | inl short ↦
        rw (create_short n item current short, short)
          (kdf_loop-hmac path (suc n) (keyed n item current) key
            ∙ rw (digest-keyed_ext n item current))
    | inr long ↦ rw (create_long n item current long, long)
  ]

  digest-new : digest 0 sha_new ≡ (λ m. sha_finalize (sha_update sha_new m))
  unfolding digest finalize update
  digest-new = refl

  -- `kdf` panics exactly if a path item is longer than 64 bytes. Else it is HMAC-SHA256 keyed by the
  -- label "VMess AEAD KDF", as the hash of an HMAC keyed by the first item, and so on to the last,
  -- applied to `key`.
  pub kdf-hmac :
      (key : List ℕ) (path : List (List ℕ))
      → kdf c key path ≡ (
          if short_items path
          then some (
              hmac_chain
                (hmac (λ m. sha_finalize (sha_update sha_new m)) (codes "VMess AEAD KDF"))
                path
                key)
          else none)
  unfolding kdf
  kdf-hmac key path =
      kdf_loop-hmac path 1 (keyed 0 (codes "VMess AEAD KDF") sha_new) key
      ∙ rw (digest-keyed_ext 0 (codes "VMess AEAD KDF") sha_new, digest-new)
