-- ===== src/Pool/Idle.antt =====
-- relay/transport/grpc.rs, `GrpcPool`: `prune_idle` closes the connections that are idle, and no others.
use tobira.Base.{
  ℕ, ◌-◌, ◌≡◌, refl, sym, ap, ◌∙◌, inl, inr, Bool, true, false, none, some, String, List, [], ◌∷◌,
  leb, ◌==◌, if◌then◌else◌, arith, Bool-cases, Option-cases, str_eq,
}
use tobira.Pool.{Slot, free, connecting, GrpcPool, lookup, close_idle, idle_rounds, prune_idle}
use tobira.Pool.Close.{slot_in}
use tobira.Pool.Unique.{Slot-cases}

-- A slot without the connection that has not been used for `max_idle` or longer.
abbrev pub expire : ℕ → ℕ → Slot → Slot
expire now max_idle (connecting id) = connecting id
expire now max_idle (free none) = free none
expire now max_idle (free (some c)) =
    if leb max_idle (now - c.last_used) then free none else free (some c)

expire_twice :
    (now max_idle : ℕ) (s : Slot)
    → expire now max_idle (expire now max_idle s) ≡ expire now max_idle s
expire_twice now max_idle (connecting id) = refl
expire_twice now max_idle (free none) = refl
expire_twice now max_idle (free (some c)) = elim (Bool-cases (leb max_idle (now - c.last_used))) [
  | inl late ↦ rw late refl
  | inr fresh ↦ rw fresh (rw fresh refl)
]

-- Whether some entry leads to the slot.
abbrev leads_to : ℕ → List (String × ℕ) → Bool
leads_to j [] = false
leads_to j ((key, i) ∷ entries) = if j == i then true else leads_to j entries

leads_to_found :
    (k : String) (j : ℕ) (conns : List (String × ℕ))
    → lookup k conns ≡ some j
    → leads_to j conns ≡ true
leads_to_found k j [] e = cc
leads_to_found k j ((l, i) ∷ conns) e = elim (Bool-cases (str_eq k l)) [
  | inl same ↦ ground arith
  | inr other ↦ ground (arith, leads_to_found k j conns (rw other at e))
]

close_idle-slots :
    (now max_idle i j : ℕ) (pool r : GrpcPool)
    → close_idle now max_idle i pool ≡ some r
    → r.slots j ≡ (if j == i then expire now max_idle (pool.slots j) else pool.slots j)
unfolding close_idle
close_idle-slots now max_idle i j pool r e =
    sym (ap (slot_in j) e) ∙ elim (Slot-cases (pool.slots i)) [
      | inl (id, s) ↦
          let run : close_idle now max_idle i pool ≡ none = rw (s, close_idle) refl in
          absurd (cc (e, run))
      | inr (inl s) ↦ rw (s, close_idle) (unchanged (free none) s refl)
      | inr (inr (c, s)) ↦
          rw (s, close_idle)
            (elim (Bool-cases (leb max_idle (now - c.last_used))) [
              | inl late ↦ rw (late, close_idle) (changed (free (some c)) s (rw late refl))
              | inr fresh ↦ rw (fresh, close_idle) (unchanged (free (some c)) s (rw fresh refl))
            ])
    ]
  where
    unchanged :
        (slot : Slot)
        → pool.slots i ≡ slot
        → expire now max_idle slot ≡ slot
        → pool.slots j ≡ (if j == i then expire now max_idle (pool.slots j) else pool.slots j)
    unchanged slot s kept = elim (Bool-cases (j == i)) [
      | inl same ↦
          let at : j ≡ i = ground arith in
          let here : pool.slots j ≡ slot = ap pool.slots at ∙ s in
          rw same (here ∙ sym kept ∙ ap (expire now max_idle) (sym here))
      | inr other ↦ rw other refl
    ]

    changed :
        (slot : Slot)
        → pool.slots i ≡ slot
        → expire now max_idle slot ≡ free none
        → (if j == i then free none else pool.slots j)
          ≡ (if j == i then expire now max_idle (pool.slots j) else pool.slots j)
    changed slot s gone = elim (Bool-cases (j == i)) [
      | inl same ↦
          let at : j ≡ i = ground arith in
          let here : pool.slots j ≡ slot = ap pool.slots at ∙ s in
          rw same (sym (ap (expire now max_idle) here ∙ gone))
      | inr other ↦ rw other refl
    ]

expire_join :
    (now max_idle : ℕ) (a b : Bool) (s t : Slot)
    → t ≡ (if a then expire now max_idle s else s)
    → (if b then expire now max_idle t else t)
      ≡ (if (if a then true else b) then expire now max_idle s else s)
expire_join now max_idle true true s t e = ap (expire now max_idle) e ∙ expire_twice now max_idle s
expire_join now max_idle true false s t e = e
expire_join now max_idle false true s t e = ap (expire now max_idle) e
expire_join now max_idle false false s t e = e

idle_rounds-slots :
    (now max_idle j : ℕ) (entries : List (String × ℕ)) (pool q : GrpcPool)
    → idle_rounds now max_idle entries pool ≡ some q
    → q.slots j ≡ (if leads_to j entries then expire now max_idle (pool.slots j) else pool.slots j)
unfolding idle_rounds
idle_rounds-slots now max_idle j [] pool q e = sym (ap (slot_in j) e)
idle_rounds-slots now max_idle j ((key, i) ∷ entries) pool q e =
    elim (Option-cases (close_idle now max_idle i pool)) [
      | inl held ↦
          let run : idle_rounds now max_idle ((key, i) ∷ entries) pool ≡ none =
            rw (held, idle_rounds) refl in
          absurd (cc (e, run))
      | inr (p, done) ↦
          let rest = idle_rounds-slots now max_idle j entries p q (rw (done, idle_rounds) at e) in
          let here = close_idle-slots now max_idle i j pool p done in
          rest
          ∙ expire_join now max_idle (j == i) (leads_to j entries) (pool.slots j) (p.slots j) here
    ]

-- A scan for idle connections that is not made to wait empties the slots of the map whose connection
-- has not been used for the idle timeout or longer, and leaves the others as they are; without a
-- timeout it leaves all of them.
pub prune_idle-expire :
    (now j : ℕ) (k : String) (pool q : GrpcPool)
    → prune_idle now pool ≡ some q
    → lookup k pool.conns ≡ some j
    → q.slots j ≡ elim pool.idle_timeout [
      | none ↦ pool.slots j
      | some max_idle ↦ expire now max_idle (pool.slots j)
    ]
unfolding prune_idle
prune_idle-expire now j k pool q e at = elim (Option-cases pool.idle_timeout) [
  | inl unset ↦ rw unset (sym (ap (slot_in j) (rw (unset, prune_idle) at e)))
  | inr (max_idle, set) ↦ rw set (
      idle_rounds-slots now max_idle j pool.conns pool q (rw (set, prune_idle) at e)
      ∙ rw (leads_to_found k j pool.conns at) refl)
]
