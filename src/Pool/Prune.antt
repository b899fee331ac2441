-- ===== src/Pool/Prune.antt =====
-- relay/transport/grpc.rs, `GrpcPool`: what `prune_to_endpoints` takes out of the pool, and what it
-- leaves there.
use tobira.Base.{
  ℕ, ◌≡◌, ◌≢◌, refl, sym, ap, ◌∙◌, inl, inr, true, false, none, some, String, List, [], ◌∷◌,
  if◌then◌else◌, arith, any, map, All, Bool-cases, str_eq, eq_iff,
}
use tobira.Pool.{free, GrpcPool, lookup, pool_key, stale, prune_to_endpoints}
use tobira.Pool.Rounds.{keys, prune_rounds-lookup, prune_rounds-slots, prune_rounds-empties}
use tobira.Pool.Separate.{AreSeparate}

-- The keys of the endpoints that are in use.
abbrev pub active_keys : List (String × String) → List String
active_keys active = map (λ e. pool_key e.0 e.1) active

names_apart :
    (names : List String) (k l : String)
    → any (str_eq k) names ≢ any (str_eq l) names
    → str_eq k l ≡ false
names_apart names k l h = elim (Bool-cases (str_eq k l)) [
  | inl same ↦
      let equal : k ≡ l = ground (arith, eq_iff k l) in
      absurd (h (ap (λ x. any (str_eq x) names) equal))
  | inr other ↦ other
]

stale-active :
    (names : List String) (k : String) (conns : List (String × ℕ))
    → any (str_eq k) names ≡ true
    → any (str_eq k) (keys (stale names conns)) ≡ false
stale-active names k [] h = refl
stale-active names k ((l, i) ∷ conns) h = elim (Bool-cases (any (str_eq l) names)) [
  | inl used ↦ rw used (stale-active names k conns h)
  | inr unused ↦
      rw unused (rw (names_apart names k l (λ e. cc (e, h, unused))) (stale-active names k conns h))
]

stale-unused :
    (names : List String) (k : String) (conns : List (String × ℕ))
    → any (str_eq k) names ≡ false
    → (if any (str_eq k) (keys (stale names conns)) then none else lookup k conns) ≡ none
stale-unused names k [] h = refl
stale-unused names k ((l, i) ∷ conns) h = elim (Bool-cases (any (str_eq l) names)) [
  | inl used ↦
      rw used (rw (names_apart names k l (λ e. cc (e, h, used))) (stale-unused names k conns h))
  | inr unused ↦ rw unused (elim (Bool-cases (str_eq k l)) [
    | inl same ↦ rw same refl
    | inr other ↦ rw other (stale-unused names k conns h)
  ])
]

stale-others :
    (names : List String) (i : ℕ) (conns : List (String × ℕ))
    → All (λ e. e.1 ≢ i) conns
    → All (λ e. e.1 ≢ i) (stale names conns)
stale-others names i [] h = tt
stale-others names i ((l, j) ∷ conns) (p, h) = elim (Bool-cases (any (str_eq l) names)) [
  | inl used ↦ rw used (stale-others names i conns h)
  | inr unused ↦ rw unused (p, stale-others names i conns h)
]

lookup-ne :
    (k : String) (i : ℕ) (conns : List (String × ℕ))
    → All (λ e. e.1 ≢ i) conns
    → lookup k conns ≢ some i
lookup-ne k i [] h e = cc
lookup-ne k i ((l, j) ∷ conns) (p, h) e = elim (Bool-cases (str_eq k l)) [
  | inl same ↦ p (ground arith)
  | inr other ↦ lookup-ne k i conns h (rw other at e)
]

stale-AreApart :
    (names : List String) (k : String) (j count : ℕ) (conns : List (String × ℕ))
    → any (str_eq k) names ≡ true
    → AreSeparate conns count
    → lookup k conns ≡ some j
    → All (λ e. e.1 ≢ j) (stale names conns)
stale-AreApart names k j count [] h apart at = tt
stale-AreApart names k j count ((l, i) ∷ conns) h (below, others, apart) at =
    elim (Bool-cases (any (str_eq l) names)) [
      | inl used ↦ rw used (elim (Bool-cases (str_eq k l)) [
        | inl same ↦
            let here : i ≡ j = ground arith in rw (← here) (stale-others names i conns others)
        | inr other ↦ stale-AreApart names k j count conns h apart (rw other at at)
      ])
      | inr unused ↦
          let other : str_eq k l ≡ false = names_apart names k l (λ e. cc (e, h, unused)) in
          let later : lookup k conns ≡ some j = rw other at at in
          rw unused (
            λ e. lookup-ne k i conns others (later ∙ ap some (sym e)),
            stale-AreApart names k j count conns h apart later,
          )
    ]

-- A prune that is not made to wait takes out just the keys of endpoints that are not in use: such a
-- key leads nowhere afterwards, and any other key to the slot that it led to before.
pub prune_to_endpoints-lookup :
    (active : List (String × String)) (pool q : GrpcPool) (k : String)
    → prune_to_endpoints active pool ≡ some q
    → lookup k q.conns ≡ (if any (str_eq k) (active_keys active) then lookup k pool.conns else none)
unfolding prune_to_endpoints
prune_to_endpoints-lookup active pool q k e =
    let names = active_keys active in
    prune_rounds-lookup (stale names pool.conns) pool q k e
    ∙ elim (Bool-cases (any (str_eq k) names)) [
      | inl used ↦ rw (used, stale-active names k pool.conns used) refl
      | inr unused ↦ rw unused (stale-unused names k pool.conns unused)
    ]

stale-lookup :
    (names : List String) (k : String) (i : ℕ) (conns : List (String × ℕ))
    → any (str_eq k) names ≡ false
    → lookup k conns ≡ some i
    → lookup k (stale names conns) ≡ some i
stale-lookup names k i [] unused at = at
stale-lookup names k i ((l, j) ∷ conns) unused at = elim (Bool-cases (any (str_eq l) names)) [
  | inl used ↦ rw used (
      stale-lookup names k i conns unused
        (rw (names_apart names k l (λ e. cc (e, unused, used))) at at))
  | inr gone ↦ rw gone (elim (Bool-cases (str_eq k l)) [
    | inl same ↦ rw same (rw same at at)
    | inr other ↦ rw other (stale-lookup names k i conns unused (rw other at at))
  ])
]

-- A prune that is not made to wait empties the slot of each endpoint that is not in use.
pub prune_to_endpoints-empties :
    (active : List (String × String)) (pool q : GrpcPool) (k : String) (i : ℕ)
    → prune_to_endpoints active pool ≡ some q
    → any (str_eq k) (active_keys active) ≡ false
    → lookup k pool.conns ≡ some i
    → q.slots i ≡ free none
unfolding prune_to_endpoints
prune_to_endpoints-empties active pool q k i e unused at =
    prune_rounds-empties (stale (active_keys active) pool.conns) pool q k i i
      (stale-lookup (active_keys active) k i pool.conns unused at) at e

-- In a pool whose keys lead to different slots, a prune that is not made to wait leaves the connection of
-- an endpoint in use as it is: the endpoint's key still leads to its slot, and the slot holds what it
-- held.
pub prune_to_endpoints-Keeps :
    (active : List (String × String)) (pool q : GrpcPool) (k : String) (j : ℕ)
    → AreSeparate pool.conns pool.slot_count
    → any (str_eq k) (active_keys active) ≡ true
    → lookup k pool.conns ≡ some j
    → prune_to_endpoints active pool ≡ some q
    → (lookup k q.conns ≡ some j) × (q.slots j ≡ pool.slots j)
unfolding prune_to_endpoints
prune_to_endpoints-Keeps active pool q k j apart used at e = (
  prune_to_endpoints-lookup active pool q k e ∙ rw used at,
  prune_rounds-slots (stale (active_keys active) pool.conns) pool q j
      (stale-AreApart (active_keys active) k j pool.slot_count pool.conns used apart at) e,
)
