-- ===== src/Pool/Rounds.antt =====
-- relay/transport/grpc.rs, `GrpcPool`: what the rounds of `prune_to_endpoints` do to the map and the slots.
use tobira.Base.{
  ℕ, ◌≡◌, ◌≢◌, refl, sym, ap, ◌∙◌, ◌⊎◌, inl, inr, Bool, true, false, ◌||◌, Option, none, some,
  String, List, [], ◌∷◌, ◌==◌, if◌then◌else◌, arith, any, All, Bool-cases, Option-cases, str_eq,
  eq_iff,
}
use tobira.Pool.{Slot, free, GrpcPool, remove, clear, put_slot, lookup, remove_key, prune_rounds}
use tobira.Pool.Close.{slot_in}
use tobira.Pool.Unique.{Slot-cases}

lookup-remove_key :
    (k key : String) (conns : List (String × ℕ))
    → lookup k (remove_key key conns) ≡ (if str_eq k key then none else lookup k conns)
lookup-remove_key k key [] = elim (Bool-cases (str_eq k key)) [
  | inl e ↦ rw e refl
  | inr e ↦ rw e refl
]
lookup-remove_key k key ((l, i) ∷ conns) =
    ground (arith, eq_iff key l, eq_iff k l, eq_iff k key, lookup-remove_key k key conns)

abbrev conns_in : Option GrpcPool → List (String × ℕ)
conns_in none = []
conns_in (some pool) = pool.conns

put_there : (i j : ℕ) (slot other : Slot) → i ≢ j → (if j == i then slot else other) ≡ other
put_there i j slot other apart = ground arith

cleared :
    (i : ℕ) (pool r : GrpcPool)
    → clear i pool ≡ some r
    → clear i pool ≡ some (put_slot i (free none) pool)
    → (r.conns ≡ pool.conns) × ((j : ℕ) → i ≢ j → r.slots j ≡ pool.slots j)
cleared i pool r e run = (
  sym (ap conns_in e) ∙ ap conns_in run,
  λ j apart.
      sym (ap (slot_in j) e) ∙ ap (slot_in j) run ∙ put_there i j (free none) (pool.slots j) apart,
)

freed_there :
    (i j : ℕ) (other : Slot)
    → (i ≡ j) ⊎ (other ≡ free none)
    → (if j == i then free none else other) ≡ free none
freed_there i j other (inl same) = ground arith
freed_there i j other (inr empty) = ground arith

freed_at :
    (i j : ℕ) (pool r : GrpcPool)
    → clear i pool ≡ some r
    → (i ≡ j) ⊎ (pool.slots j ≡ free none)
    → clear i pool ≡ some (put_slot i (free none) pool)
    → r.slots j ≡ free none
freed_at i j pool r e h run =
    sym (ap (slot_in j) e) ∙ ap (slot_in j) run ∙ freed_there i j (pool.slots j) h

clear-conns :
    (i : ℕ) (pool r : GrpcPool)
    → clear i pool ≡ some r
    → (r.conns ≡ pool.conns) × ((j : ℕ) → i ≢ j → r.slots j ≡ pool.slots j)
unfolding clear
clear-conns i pool r e = elim (Slot-cases (pool.slots i)) [
  | inl (id, s) ↦ let run : clear i pool ≡ none = rw (s, clear) refl in absurd (cc (e, run))
  | inr (inl s) ↦ cleared i pool r e (rw (s, clear) refl)
  | inr (inr (c, s)) ↦ cleared i pool r e (rw (s, clear) refl)
]

abbrev pub keys : List (String × ℕ) → List String
keys [] = []
keys ((key, i) ∷ conns) = key ∷ keys conns

or_join :
    (a b : Bool) (x y : Option ℕ)
    → x ≡ (if a then none else y)
    → (if b then none else x) ≡ (if a || b then none else y)
or_join true true x y e = refl
or_join true false x y e = e
or_join false true x y e = refl
or_join false false x y e = e

pub prune_rounds-lookup :
    (entries : List (String × ℕ)) (pool q : GrpcPool) (k : String)
    → prune_rounds entries pool ≡ some q
    → lookup k q.conns ≡ (if any (str_eq k) (keys entries) then none else lookup k pool.conns)
unfolding prune_rounds remove
prune_rounds-lookup [] pool q k e = sym (ap (λ p. lookup k (conns_in p)) e)
prune_rounds-lookup ((key, i) ∷ entries) pool q k e = elim (Option-cases (lookup key pool.conns)) [
  | inl absent ↦
      let rest = prune_rounds-lookup entries pool q k (rw (absent, prune_rounds) at e) in
      ground (arith, eq_iff k key)
  | inr (j, present) ↦ elim (Option-cases (clear i (remove key pool))) [
    | inl held ↦
        let run : prune_rounds ((key, i) ∷ entries) pool ≡ none =
          rw (present, prune_rounds) (rw (held, prune_rounds) refl) in
        absurd (cc (e, run))
    | inr (p, freed) ↦
        let run : prune_rounds ((key, i) ∷ entries) pool ≡ prune_rounds entries p =
          rw (present, prune_rounds) (rw (freed, prune_rounds) refl) in
        let rest = prune_rounds-lookup entries p q k (sym run ∙ e) in
        let same = (clear-conns i (remove key pool) p freed).0 in
        let less = lookup-remove_key k key pool.conns in
        rest
        ∙ or_join (str_eq k key) (any (str_eq k) (keys entries)) _ _ (ap (lookup k) same ∙ less)
  ]
]

clear-free :
    (i j : ℕ) (pool r : GrpcPool)
    → clear i pool ≡ some r
    → (i ≡ j) ⊎ (pool.slots j ≡ free none)
    → r.slots j ≡ free none
unfolding clear
clear-free i j pool r e h = elim (Slot-cases (pool.slots i)) [
  | inl (id, s) ↦ let run : clear i pool ≡ none = rw (s, clear) refl in absurd (cc (e, run))
  | inr (inl s) ↦ freed_at i j pool r e h (rw (s, clear) refl)
  | inr (inr (c, s)) ↦ freed_at i j pool r e h (rw (s, clear) refl)
]

-- A slot that is empty stays so.
prune_rounds-free :
    (entries : List (String × ℕ)) (pool q : GrpcPool) (j : ℕ)
    → pool.slots j ≡ free none
    → prune_rounds entries pool ≡ some q
    → q.slots j ≡ free none
unfolding prune_rounds remove
prune_rounds-free [] pool q j h e = sym (ap (slot_in j) e) ∙ h
prune_rounds-free ((key, i) ∷ entries) pool q j h e = elim (Option-cases (lookup key pool.conns)) [
  | inl absent ↦ prune_rounds-free entries pool q j h (rw (absent, prune_rounds) at e)
  | inr (at, present) ↦ elim (Option-cases (clear i (remove key pool))) [
    | inl held ↦
        let run : prune_rounds ((key, i) ∷ entries) pool ≡ none =
          rw (present, prune_rounds) (rw (held, prune_rounds) refl) in
        absurd (cc (e, run))
    | inr (p, freed) ↦
        let run : prune_rounds ((key, i) ∷ entries) pool ≡ prune_rounds entries p =
          rw (present, prune_rounds) (rw (freed, prune_rounds) refl) in
        prune_rounds-free entries p q j (clear-free i j (remove key pool) p freed (inr h))
          (sym run ∙ e)
  ]
]

-- The slot of a key that the rounds go over is empty afterwards, if the pool has the key.
pub prune_rounds-empties :
    (entries : List (String × ℕ)) (pool q : GrpcPool) (k : String) (i j : ℕ)
    → lookup k entries ≡ some i
    → lookup k pool.conns ≡ some j
    → prune_rounds entries pool ≡ some q
    → q.slots i ≡ free none
unfolding prune_rounds remove
prune_rounds-empties [] pool q k i j listed has e = absurd (ground arith)
prune_rounds-empties ((l, m) ∷ entries) pool q k i j listed has e =
    elim (Option-cases (lookup l pool.conns)) [
      | inl absent ↦ elim (Bool-cases (str_eq k l)) [
        | inl same ↦ let equal : k ≡ l = (eq_iff k l).0 same in absurd (cc (has, absent, equal))
        | inr other ↦
            prune_rounds-empties entries pool q k i j (rw other at listed) has
              (rw (absent, prune_rounds) at e)
      ]
      | inr (at, present) ↦ elim (Option-cases (clear m (remove l pool))) [
        | inl held ↦
            let run : prune_rounds ((l, m) ∷ entries) pool ≡ none =
              rw (present, prune_rounds) (rw (held, prune_rounds) refl) in
            absurd (cc (e, run))
        | inr (p, freed) ↦
            let run : prune_rounds ((l, m) ∷ entries) pool ≡ prune_rounds entries p =
              rw (present, prune_rounds) (rw (freed, prune_rounds) refl) in
            elim (Bool-cases (str_eq k l)) [
              | inl same ↦
                  let here : some m ≡ some i = rw same at listed in
                  prune_rounds-free entries p q i
                    (clear-free m i (remove l pool) p freed (inl (cc here))) (sym run ∙ e)
              | inr other ↦
                  let kept = lookup-remove_key k l pool.conns ∙ rw other has in
                  prune_rounds-empties entries p q k i j (rw other at listed)
                    (ap (lookup k) (clear-conns m (remove l pool) p freed).0 ∙ kept) (sym run ∙ e)
            ]
      ]
    ]

pub prune_rounds-slots :
    (entries : List (String × ℕ)) (pool q : GrpcPool) (j : ℕ)
    → All (λ e. e.1 ≢ j) entries
    → prune_rounds entries pool ≡ some q
    → q.slots j ≡ pool.slots j
unfolding prune_rounds remove
prune_rounds-slots [] pool q j h e = sym (ap (slot_in j) e)
prune_rounds-slots ((key, i) ∷ entries) pool q j (apart, h) e =
    elim (Option-cases (lookup key pool.conns)) [
      | inl absent ↦ prune_rounds-slots entries pool q j h (rw (absent, prune_rounds) at e)
      | inr (at, present) ↦ elim (Option-cases (clear i (remove key pool))) [
        | inl held ↦
            let run : prune_rounds ((key, i) ∷ entries) pool ≡ none =
              rw (present, prune_rounds) (rw (held, prune_rounds) refl) in
            absurd (cc (e, run))
        | inr (p, freed) ↦
            let run : prune_rounds ((key, i) ∷ entries) pool ≡ prune_rounds entries p =
              rw (present, prune_rounds) (rw (freed, prune_rounds) refl) in
            prune_rounds-slots entries p q j h (sym run ∙ e)
            ∙ (clear-conns i (remove key pool) p freed).1 j apart
      ]
    ]
