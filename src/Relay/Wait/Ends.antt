-- ===== src/Relay/Wait/Ends.antt =====
-- relay/outbound/grpc.rs and relay/inbound/grpc.rs: when the waits of the relay end, and with what.
use tobira.Base.{
  ℕ, ◌≤◌, ◌≡◌, refl, sym, ap, ◌∙◌, ◌⊎◌, inl, inr, true, Option, none, some, List, [], ◌∷◌, leb,
  arith, In, Bool-cases,
}
use mathlib.Core.Path.{subst}
use tobira.Relay.Wait.{
  or_set, Joined, WaitEvent, sends_done, receives_done, ticks, wait_round, both, wait_loop,
  wait_grpc_relay,
}

-- The timer has ticked when the relay had been idle for the timeout or longer.
abbrev pub Expires : ℕ → List WaitEvent → Type 0
Expires timeout [] = ⊥
Expires timeout (sends_done r ∷ events) = Expires timeout events
Expires timeout (receives_done r ∷ events) = Expires timeout events
Expires timeout (ticks idle a b ∷ events) = (timeout ≤ idle) ⊎ Expires timeout events

-- The wait ends.
abbrev pub IsOver : Option (Joined × Joined) → Type 0
IsOver none = ⊥
IsOver (some results) = Unit

or_both :
    (r1 r2 : Option Joined) (a b : Joined) (later : Option (Joined × Joined))
    → IsOver
        (elim (both (or_set r1 a) (or_set r2 b)) [ some results ↦ some results | none ↦ later ])
or_both none none a b later = tt
or_both none (some s) a b later = tt
or_both (some r) none a b later = tt
or_both (some r) (some s) a b later = tt

IsOver-or_later :
    (found : Option (Joined × Joined)) (later : Option (Joined × Joined))
    → IsOver later
    → IsOver (elim found [ some results ↦ some results | none ↦ later ])
IsOver-or_later none later h = h
IsOver-or_later (some r) later h = tt

-- The rest of a round.
abbrev next_round :
    Option ℕ → List WaitEvent → Option Joined × Option Joined → Option (Joined × Joined)
next_round timeout events (s1, s2) = elim (both s1 s2) [
  | some results ↦ some results
  | none ↦ wait_loop timeout s1 s2 events
]

wait_round-ticks :
    (timeout idle : ℕ) (r1 r2 : Option Joined) (a b : Joined)
    → ((timeout ≤ idle)
        × (wait_round (some timeout) r1 r2 (ticks idle a b) ≡ (or_set r1 a, or_set r2 b)))
      ⊎ (wait_round (some timeout) r1 r2 (ticks idle a b) ≡ (r1, r2))
unfolding wait_round
wait_round-ticks timeout idle r1 r2 a b = elim (Bool-cases (leb timeout idle)) [
  | inl late ↦ inl (ground arith, rw (late, wait_round) refl)
  | inr early ↦ inr (rw (early, wait_round) refl)
]

wait_loop-Expires :
    (timeout : ℕ) (events : List WaitEvent) (r1 r2 : Option Joined)
    → Expires timeout events
    → IsOver (wait_loop (some timeout) r1 r2 events)
unfolding wait_loop wait_round
wait_loop-Expires timeout [] r1 r2 h = absurd h
wait_loop-Expires timeout (sends_done r ∷ events) r1 r2 h =
    IsOver-or_later _ _ (wait_loop-Expires timeout events _ r2 h)
wait_loop-Expires timeout (receives_done r ∷ events) r1 r2 h =
    IsOver-or_later _ _ (wait_loop-Expires timeout events r1 _ h)
wait_loop-Expires timeout (ticks idle a b ∷ events) r1 r2 (inr later) =
    IsOver-or_later _ _ (wait_loop-Expires timeout events _ _ later)
wait_loop-Expires timeout (ticks idle a b ∷ events) r1 r2 (inl late) =
    let now : leb timeout idle ≡ true = ground arith in
    let round : wait_round (some timeout) r1 r2 (ticks idle a b) ≡ (or_set r1 a, or_set r2 b) =
      rw (now, wait_round) refl in
    subst (λ s. IsOver (next_round (some timeout) events s)) (sym round) (or_both r1 r2 a b _)

-- A wait with an idle timeout ends at the latest when the timer ticks and the relay has been idle for
-- the timeout, whatever the two tasks do.
pub wait_grpc_relay-IsOver :
    (timeout : ℕ) (events : List WaitEvent)
    → Expires timeout events
    → IsOver (wait_grpc_relay (some timeout) events)
unfolding wait_grpc_relay
wait_grpc_relay-IsOver timeout events h = wait_loop-Expires timeout events none none h

over_cases :
    (s1 s2 : Option Joined) (later : Option (Joined × Joined)) (a b : Joined)
    → elim (both s1 s2) [ some results ↦ some results | none ↦ later ] ≡ some (a, b)
    → ((s1 ≡ some a) × (s2 ≡ some b)) ⊎ (later ≡ some (a, b))
over_cases none none later a b e = inr e
over_cases none (some s) later a b e = inr e
over_cases (some r) none later a b e = inr e
over_cases (some r) (some s) later a b e = inl (cc, cc)

or_set_cases :
    (old : Option Joined) (r a : Joined) → or_set old r ≡ some a → (old ≡ some a) ⊎ (a ≡ r)
or_set_cases none r a e = inr (cc)
or_set_cases (some s) r a e = inl e

-- Where a result came from: it was there, or its task was done.
abbrev Comes : Option Joined → Joined → WaitEvent → List WaitEvent → Type 0
Comes r a e events = (r ≡ some a) ⊎ In e events

later_Comes :
    (r : Option Joined) (a : Joined) (e first : WaitEvent) (events : List WaitEvent)
    → Comes r a e events
    → Comes r a e (first ∷ events)
later_Comes r a e first events (inl h) = inl h
later_Comes r a e first events (inr h) = inr (inr h)

set_Comes :
    (make : Joined → WaitEvent) (old : Option Joined) (r a : Joined) (events : List WaitEvent)
    → Comes (or_set old r) a (make a) events
    → Comes old a (make a) (make r ∷ events)
set_Comes make old r a events (inl h) = elim (or_set_cases old r a h) [
  | inl same ↦ inl same
  | inr here ↦ inr (inl (ap make here))
]
set_Comes make old r a events (inr h) = inr (inr h)

-- The results are the tasks' own.
abbrev Own : Option Joined → Option Joined → Joined → Joined → List WaitEvent → Type 0
Own r1 r2 a b events = Comes r1 a (sends_done a) events × Comes r2 b (receives_done b) events

wait_loop-Own :
    (timeout : ℕ) (events : List WaitEvent) (r1 r2 : Option Joined) (a b : Joined)
    → wait_loop (some timeout) r1 r2 events ≡ some (a, b)
    → Expires timeout events ⊎ Own r1 r2 a b events
unfolding wait_loop wait_round
wait_loop-Own timeout [] r1 r2 a b e = cc
wait_loop-Own timeout (sends_done r ∷ events) r1 r2 a b e =
    elim (over_cases (or_set r1 r) r2 (wait_loop (some timeout) (or_set r1 r) r2 events) a b e) [
      | inl (p, q) ↦ inr (set_Comes sends_done r1 r a events (inl p), inl q)
      | inr later ↦ elim (wait_loop-Own timeout events (or_set r1 r) r2 a b later) [
        | inl x ↦ inl x
        | inr (p, q) ↦ inr (set_Comes sends_done r1 r a events p, later_Comes r2 b _ _ events q)
      ]
    ]
wait_loop-Own timeout (receives_done r ∷ events) r1 r2 a b e =
    elim (over_cases r1 (or_set r2 r) (wait_loop (some timeout) r1 (or_set r2 r) events) a b e) [
      | inl (p, q) ↦ inr (inl p, set_Comes receives_done r2 r b events (inl q))
      | inr later ↦ elim (wait_loop-Own timeout events r1 (or_set r2 r) a b later) [
        | inl x ↦ inl x
        | inr (p, q) ↦ inr (later_Comes r1 a _ _ events p, set_Comes receives_done r2 r b events q)
      ]
    ]
wait_loop-Own timeout (ticks idle x y ∷ events) r1 r2 a b e =
    elim (wait_round-ticks timeout idle r1 r2 x y) [
      | inl (late, round) ↦ inl (inl late)
      | inr round ↦
          let same : next_round (some timeout) events (r1, r2) ≡ some (a, b) =
            sym (ap (next_round (some timeout) events) round) ∙ e in
          elim (over_cases r1 r2 (wait_loop (some timeout) r1 r2 events) a b same) [
            | inl (p, q) ↦ inr (inl p, inl q)
            | inr later ↦ elim (wait_loop-Own timeout events r1 r2 a b later) [
              | inl z ↦ inl (inr z)
              | inr (p, q) ↦ inr (later_Comes r1 a _ _ events p, later_Comes r2 b _ _ events q)
            ]
          ]
    ]

-- A direction that is done does not cut the other one short: unless the timer ticked when the relay had
-- been idle for the timeout, the wait ends with the results that both tasks came to by themselves.
pub wait_grpc_relay-own :
    (timeout : ℕ) (events : List WaitEvent) (a b : Joined)
    → wait_grpc_relay (some timeout) events ≡ some (a, b)
    → Expires timeout events ⊎ (In (sends_done a) events × In (receives_done b) events)
unfolding wait_grpc_relay
wait_grpc_relay-own timeout events a b e = elim (wait_loop-Own timeout events none none a b e) [
  | inl x ↦ inl x
  | inr (inr p, inr q) ↦ inr (p, q)
  | inr (inl p, q) ↦ absurd (cc)
  | inr (inr p, inl q) ↦ absurd (cc)
]
