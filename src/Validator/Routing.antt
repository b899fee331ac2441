-- ===== src/Validator/Routing.antt =====
-- vmess/validator.rs: which tables are built, and which upstream an Auth ID is sent to.
use tobira.Base.{
  ℕ, ◌≡◌, ◌≢◌, ◌⊎◌, inl, inr, refl, sym, ap, ◌∙◌, true, false, none, some, String, List, [], ◌∷◌,
  ◌++◌, arith, map, All, Result, ok, err, str_eq, eq_iff, append_assoc, append-nil, Bool-cases,
  >>=-eq-ok,
}
use tobira.Auth.{Crypto, AuthVerifier, verify}
use tobira.Auth.Uuid.{hex_digits, fold_case, from_uuid_same}
use tobira.Validator.{
  Upstream, Entry, Validator, TableError, contains, make_verifier, new_loop, new, match_entries,
  match_auth_id,
}

-- The pair that an entry was made of.
abbrev pub pair_of : Entry → String × Upstream
pair_of e = (e.uuid, e.upstream)

-- No two of the texts are equal.
abbrev pub AreDistinct : List String → Type 0
AreDistinct [] = Unit
AreDistinct (u ∷ us) = All (λ w. u ≢ w) us × AreDistinct us

abbrev pub uuids : List (String × Upstream) → List String
uuids [] = []
uuids ((u, x) ∷ pairs) = u ∷ uuids pairs

abbrev entries_of : Result TableError Validator → List Entry
entries_of (ok v) = v.entries
entries_of (err e) = []

abbrev IsNew : List String → String → Type 0
IsNew seen w = contains seen w ≡ false

module _ (c : Crypto) where
  abbrev pub IsKeyed : Entry → Type 0
  IsKeyed e = make_verifier c e.uuid ≡ ok e.verifier

  -- What the loop adds to the entries that it has.
  abbrev IsTable : List String → List Entry → List (String × Upstream) → Validator → Type 0
  IsTable seen es pairs v =
      (added : List Entry) × (v.entries ≡ es ++ added)
      × (map pair_of added ≡ pairs)
      × All IsKeyed added
      × All (IsNew seen) (uuids pairs)
      × AreDistinct (uuids pairs)

  older :
      (seen : List String) (u : String) (us : List String)
      → All (IsNew (u ∷ seen)) us
      → All (IsNew seen) us × All (λ w. u ≢ w) us
  older seen u [] h = (tt, tt)
  older seen u (w ∷ us) (p, h) =
      let (news, apart) = older seen u us h in
      ((ground arith, news), (λ e. ground (arith, eq_iff w u), apart))

  newer :
      (seen : List String) (u : String) (us : List String)
      → All (IsNew seen) us
      → All (λ w. u ≢ w) us
      → All (IsNew (u ∷ seen)) us
  newer seen u [] h k = tt
  newer seen u (w ∷ us) (p, h) (q, k) = (ground (arith, eq_iff w u), newer seen u us h k)

  ok_entries : (es : List Entry) (v : Validator) → new_loop c [] es [] ≡ ok v → v.entries ≡ es
  unfolding new_loop
  ok_entries es v e = sym (ap entries_of e)

  new_loop-IsTable :
      (seen : List String) (es : List Entry) (pairs : List (String × Upstream)) (v : Validator)
      → new_loop c seen es pairs ≡ ok v
      → IsTable seen es pairs v
  unfolding new_loop
  new_loop-IsTable seen es [] v e =
      let same : v.entries ≡ es = ok_entries es v e in
      ([], same ∙ sym (append-nil es), refl, tt, tt, tt)
  new_loop-IsTable seen es ((u, x) ∷ pairs) v e = elim (Bool-cases (contains seen u)) [
    | inl old ↦ absurd (ground arith)
    | inr new_one ↦
        let rest_ok = rw new_one at e in
        let (verifier, made, rest) = >>=-eq-ok (make_verifier c u) _ rest_ok in
        let entry : Entry = record { uuid = u; verifier = verifier; upstream = x } in
        let (added, all, pairs', keyed, news, apart) =
          new_loop-IsTable (u ∷ seen) (es ++ entry ∷ []) pairs v rest in
        let (olds, others) = older seen u (uuids pairs) news in
        (
          entry ∷ added,
          all ∙ append_assoc es (entry ∷ []) added,
          ap (λ t. (u, x) ∷ t) pairs',
          (made, keyed),
          (new_one, olds),
          (others, apart),
        )
  ]

  -- If `new` builds a table, its entries are the given pairs in the given order, each with the
  -- verifier of its UUID, and no two of the UUIDs are the same text.
  pub new-IsRouting :
      (pairs : List (String × Upstream)) (v : Validator)
      → new c pairs ≡ ok v
      → (map pair_of v.entries ≡ pairs) × All IsKeyed v.entries × AreDistinct (uuids pairs)
  unfolding new
  new-IsRouting pairs v e =
      let (added, all, pairs', keyed, news, apart) = new_loop-IsTable [] [] pairs v e in
      rw all (pairs', keyed, apart)

  abbrev pub IsValidUuid : String → Type 0
  IsValidUuid u = (w : AuthVerifier) × (make_verifier c u ≡ ok w)

  new_loop-total :
      (seen : List String) (es : List Entry) (pairs : List (String × Upstream))
      → All IsValidUuid (uuids pairs)
      → All (IsNew seen) (uuids pairs)
      → AreDistinct (uuids pairs)
      → (v : Validator) × (new_loop c seen es pairs ≡ ok v)
  unfolding new_loop
  new_loop-total seen es [] good news apart = (record { entries = es }, refl)
  new_loop-total seen es ((u, x) ∷ pairs) ((w, made), good) (new_one, news) (others, apart) =
      let (v, e) =
        new_loop-total (u ∷ seen) (es ++ record { uuid = u; verifier = w; upstream = x } ∷ []) pairs
          good (newer seen u (uuids pairs) news others) apart in
      (v, rw (new_one, made) e)

  none_seen : (us : List String) → All (IsNew []) us
  none_seen [] = tt
  none_seen (u ∷ us) = (refl, none_seen us)

  -- Distinct texts that all give a verifier are always accepted.
  pub new-total :
      (pairs : List (String × Upstream))
      → All IsValidUuid (uuids pairs)
      → AreDistinct (uuids pairs)
      → (v : Validator) × (new c pairs ≡ ok v)
  unfolding new
  new-total pairs good apart = new_loop-total [] [] pairs good (none_seen (uuids pairs)) apart

  abbrev pub Rejects : ℕ → List ℕ → Entry → Type 0
  Rejects now auth_id e = verify c now e.verifier auth_id ≡ false

  -- The entry that answers: it accepts the Auth ID, and no entry before it does.
  abbrev pub IsFirst : ℕ → List ℕ → List Entry → Upstream → Type 0
  IsFirst now auth_id es x =
      (before : List Entry) × (e : Entry) × (after : List Entry) × (es ≡ before ++ e ∷ after)
      × All (Rejects now auth_id) before
      × (verify c now e.verifier auth_id ≡ true)
      × (e.upstream ≡ x)

  match_entries_cases :
      (now : ℕ) (auth_id : List ℕ) (es : List Entry)
      → ((match_entries c now auth_id es ≡ none) × All (Rejects now auth_id) es)
        ⊎ ((x : Upstream) × (match_entries c now auth_id es ≡ some x) × IsFirst now auth_id es x)
  unfolding match_entries
  match_entries_cases now auth_id [] = inl (refl, tt)
  match_entries_cases now auth_id (e ∷ es) = elim (Bool-cases (verify c now e.verifier auth_id)) [
    | inl hit ↦ inr (e.upstream, rw hit refl, ([], e, es, refl, tt, hit, refl))
    | inr miss ↦ elim (match_entries_cases now auth_id es) [
      | inl (nothing, all) ↦ inl (rw miss nothing, (miss, all))
      | inr (x, found, (before, f, after, split, all, hit, is)) ↦
          inr
            (x, rw miss found, (e ∷ before, f, after, ap (λ t. e ∷ t) split, (miss, all), hit, is))
    ]
  ]

  -- `match_auth_id` answers nothing exactly where every entry rejects the Auth ID; otherwise it
  -- answers the upstream of the first entry that accepts it.
  pub match_auth_id_cases :
      (now : ℕ) (auth_id : List ℕ) (v : Validator)
      → ((match_auth_id c now v auth_id ≡ none) × All (Rejects now auth_id) v.entries)
        ⊎ ((x : Upstream) × (match_auth_id c now v auth_id ≡ some x)
            × IsFirst now auth_id v.entries x)
  unfolding match_auth_id
  match_auth_id_cases now auth_id v = match_entries_cases now auth_id v.entries

  two_upstreams :
      (now : ℕ) (auth_id : List ℕ) (d e : Entry)
      → d.verifier ≡ e.verifier
      → (match_entries c now auth_id (d ∷ e ∷ []) ≡ none)
        ⊎ (match_entries c now auth_id (d ∷ e ∷ []) ≡ some d.upstream)
  unfolding match_entries
  two_upstreams now auth_id d e same = elim (Bool-cases (verify c now d.verifier auth_id)) [
    | inl hit ↦ inr (rw hit)
    | inr miss ↦ inl (rw (miss, ← same, miss))
  ]

  make_verifier_same :
      (u w : String)
      → map fold_case (hex_digits u) ≡ map fold_case (hex_digits w)
      → make_verifier c u ≡ make_verifier c w
  unfolding make_verifier
  make_verifier_same u w same = rw (from_uuid_same c u w same, make_verifier)

  -- Two spellings of one UUID are not found to be duplicates: the table is built, and no Auth ID at any
  -- time is sent to the second upstream unless the first is the same one.
  pub respelled :
      (u w : String) (x y : Upstream) (k : AuthVerifier)
      → u ≢ w
      → map fold_case (hex_digits u) ≡ map fold_case (hex_digits w)
      → make_verifier c u ≡ ok k
      → (v : Validator) × (new c ((u, x) ∷ (w, y) ∷ []) ≡ ok v)
        × ((now : ℕ) (auth_id : List ℕ)
            → (match_auth_id c now v auth_id ≡ none) ⊎ (match_auth_id c now v auth_id ≡ some x))
  unfolding match_auth_id new new_loop
  respelled u w x y k apart same made =
      let second : make_verifier c w ≡ ok k = sym (make_verifier_same u w same) ∙ made in
      let d : Entry = record { uuid = u; verifier = k; upstream = x } in
      let e : Entry = record { uuid = w; verifier = k; upstream = y } in
      let fresh : str_eq w u ≡ false = ground (arith, eq_iff w u) in
      (
        record { entries = d ∷ e ∷ [] },
        rw (made, fresh, second),
        λ now auth_id. two_upstreams now auth_id d e refl,
      )
