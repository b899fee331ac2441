-- ===== src/Pool/Unique.antt =====
-- relay/transport/grpc.rs, `GrpcPool`: no id is in two slots, and no two endpoints share a slot.
use tobira.Base.{
  ℕ, suc, ◌<◌, ◌≡◌, refl, sym, ap, ◌∙◌, inl, inr, Bool, true, false, Option, none, some, String,
  List, [], ◌∷◌, ◌==◌, if◌then◌else◌, arith, leb, ◌-◌, ◌⊎◌, Bool-cases, Option-cases, and_then,
}
use mathlib.Core.Path.{subst}
use tobira.Pool.{
  PooledConn, Slot, free, connecting, GrpcPool, new, entry, acquire, connected, evict, closed,
  remove, clear, close_idle, set_idle_timeout, lookup, pool_key,
}
use tobira.Pool.Separate.{AreSeparate, remove_key-AreSeparate, add-AreSeparate}
use tobira.Pool.Steps.{
  Event, step, run, enters, acquires, connects, evicts, closes, removes, clears, closes_idle,
  sets_idle_timeout,
}

-- The id that a slot holds, or connects under.
abbrev pub uses : Slot → Option ℕ
uses (free none) = none
uses (free (some conn)) = some conn.id
uses (connecting id) = some id

-- No id is above those that were drawn, and none is in two slots.
abbrev pub AreUnique : (ℕ → Slot) → ℕ → Type 0
AreUnique slots next =
    ((i c : ℕ) → uses (slots i) ≡ some c → c < next)
    × ((i j c : ℕ) → uses (slots i) ≡ some c → uses (slots j) ≡ some c → i ≡ j)

abbrev put : ℕ → Slot → (ℕ → Slot) → ℕ → Slot
put i slot slots j = if j == i then slot else slots j

-- A slot after a write is the slot that was written, or as it was before.
put-uses :
    (i j c : ℕ) (slot : Slot) (slots : ℕ → Slot)
    → uses (put i slot slots j) ≡ some c
    → ((j ≡ i) × (uses slot ≡ some c)) ⊎ (uses (slots j) ≡ some c)
put-uses i j c slot slots h = elim (Bool-cases (j == i)) [
  | inl same ↦ inl (ground arith, rw same at h)
  | inr other ↦ inr (rw other at h)
]

module _ (i next : ℕ) (slot : Slot) (slots : ℕ → Slot) where
  put-AreUnique :
      AreUnique slots next
      → ((c : ℕ) → uses slot ≡ some c → uses (slots i) ≡ some c)
      → AreUnique (put i slot slots) next
  put-AreUnique (below, apart) same =
      let back : (j c : ℕ) → uses (put i slot slots j) ≡ some c → uses (slots j) ≡ some c = λ j c h.
        elim (put-uses i j c slot slots h) [
          | inl (at, u) ↦ ap (λ k. uses (slots k)) at ∙ same c u
          | inr u ↦ u
        ] in
      (λ j c h. below j c (back j c h), λ j k c h g. apart j k c (back j c h) (back k c g))

start-AreUnique :
    (i next : ℕ) (slots : ℕ → Slot)
    → AreUnique slots next
    → AreUnique (put i (connecting next) slots) (suc next)
start-AreUnique i next slots (below, apart) =
    let back : (j c : ℕ)
        → uses (put i (connecting next) slots j) ≡ some c
        → ((j ≡ i) × (some next ≡ some c)) ⊎ (uses (slots j) ≡ some c) =
      λ j c h. put-uses i j c (connecting next) slots h in
    (
      λ j c h. elim (back j c h) [
        | inl (at, u) ↦ ground arith
        | inr u ↦ let less = below j c u in omega arith
      ],
      λ j k c h g. elim (back j c h) [
        | inl (at, u) ↦ elim (back k c g) [
          | inl (at', u') ↦ at ∙ sym at'
          | inr u' ↦ let less = below k c u' in absurd (ground arith)
        ]
        | inr u ↦ elim (back k c g) [
          | inl (at', u') ↦ let less = below j c u in absurd (ground arith)
          | inr u' ↦ apart j k c u u'
        ]
      ],
    )

-- The pool's invariant.
abbrev pub IsPool : GrpcPool → Type 0
IsPool pool = AreUnique pool.slots pool.next_conn_id × AreSeparate pool.conns pool.slot_count

empty-AreUnique :
    (slots : ℕ → Slot) (i next : ℕ)
    → AreUnique slots next
    → AreUnique (put i (free none) slots) next
empty-AreUnique slots i next h = put-AreUnique i next (free none) slots h (λ c u. cc)

pub Slot-cases :
    (s : Slot)
    → ((id : ℕ) × (s ≡ connecting id))
      ⊎ ((s ≡ free none) ⊎ ((c : PooledConn) × (s ≡ free (some c))))
Slot-cases (connecting id) = inl (id, refl)
Slot-cases (free none) = inr (inl refl)
Slot-cases (free (some c)) = inr (inr (c, refl))

-- What is there, if anything, has the invariant.
abbrev IsPoolAfter : Option GrpcPool → Type 0
IsPoolAfter none = Unit
IsPoolAfter (some pool) = IsPool pool

entry-IsPool : (key : String) (pool : GrpcPool) → IsPool pool → IsPool (entry key pool).1
unfolding entry
entry-IsPool key pool (unique, apart) = elim (Option-cases (lookup key pool.conns)) [
  | inl absent ↦
      rw (absent, entry)
        (
          empty-AreUnique pool.slots pool.slot_count pool.next_conn_id unique,
          add-AreSeparate key pool.slot_count pool.conns apart,
        )
  | inr (i, present) ↦ rw (present, entry) (unique, apart)
]

evict-IsPool :
    (addr tls_sni : String) (pool : GrpcPool) → IsPool pool → IsPool (evict addr tls_sni pool)
unfolding evict
evict-IsPool addr tls_sni pool (unique, apart) =
    elim (Option-cases (lookup (pool_key addr tls_sni) pool.conns)) [
      | inl absent ↦ rw (absent, evict) (unique, apart)
      | inr (i, present) ↦
          rw (present, evict)
            (elim (Slot-cases (pool.slots i)) [
              | inl (id, s) ↦ rw (s, evict) (unique, apart)
              | inr (inl s) ↦
                  rw (s, evict) (empty-AreUnique pool.slots i pool.next_conn_id unique, apart)
              | inr (inr (c, s)) ↦
                  rw (s, evict) (empty-AreUnique pool.slots i pool.next_conn_id unique, apart)
            ])
    ]

module _ (i : ℕ) (pool : GrpcPool) (unique : AreUnique pool.slots pool.next_conn_id)
    (apart : AreSeparate pool.conns pool.slot_count) where
  acquire-IsPool : (now : ℕ) → IsPoolAfter (and_then (acquire now i pool) (λ r. some r.1))
  unfolding acquire
  acquire-IsPool now = elim (Slot-cases (pool.slots i)) [
    | inl (id, s) ↦ rw (s, acquire) tt
    | inr (inl s) ↦ rw (s, acquire) (start-AreUnique i pool.next_conn_id pool.slots unique, apart)
    | inr (inr (c, s)) ↦
        rw (s, acquire)
          (
            put-AreUnique i pool.next_conn_id (free (some (record c { last_used = now })))
                pool.slots unique (λ d u. ap uses s ∙ u),
            apart,
          )
  ]

  connected_uses :
      (id : ℕ)
      → pool.slots i ≡ connecting id
      → (now : ℕ) (success : Bool) (c : ℕ)
      → uses (free (if success then some (record { id = id; last_used = now }) else none)) ≡ some c
      → uses (pool.slots i) ≡ some c
  connected_uses id s now true c u = ap uses s ∙ u
  connected_uses id s now false c u = cc

  connected-IsPool : (now : ℕ) (success : Bool) → IsPoolAfter (connected now i success pool)
  unfolding connected
  connected-IsPool now success = elim (Slot-cases (pool.slots i)) [
    | inl (id, s) ↦
        rw (s, connected)
          (
            put-AreUnique i pool.next_conn_id
                (free (if success then some (record { id = id; last_used = now }) else none))
                pool.slots unique (connected_uses id s now success),
            apart,
          )
    | inr (inl s) ↦ rw (s, connected) tt
    | inr (inr (c, s)) ↦ rw (s, connected) tt
  ]

  closed-IsPool : (conn_id : ℕ) → IsPoolAfter (closed i conn_id pool)
  unfolding closed
  closed-IsPool conn_id = elim (Slot-cases (pool.slots i)) [
    | inl (id, s) ↦ rw (s, closed) tt
    | inr (inl s) ↦ rw (s, closed) (unique, apart)
    | inr (inr (c, s)) ↦
        rw (s, closed)
          (elim (Bool-cases (c.id == conn_id)) [
            | inl same ↦
                rw (same, closed) (empty-AreUnique pool.slots i pool.next_conn_id unique, apart)
            | inr other ↦ rw (other, closed) (unique, apart)
          ])
  ]

  clear-IsPool : IsPoolAfter (clear i pool)
  unfolding clear
  clear-IsPool = elim (Slot-cases (pool.slots i)) [
    | inl (id, s) ↦ rw (s, clear) tt
    | inr (inl s) ↦ rw (s, clear) (empty-AreUnique pool.slots i pool.next_conn_id unique, apart)
    | inr (inr (c, s)) ↦
        rw (s, clear) (empty-AreUnique pool.slots i pool.next_conn_id unique, apart)
  ]

  close_idle-IsPool : (now max_idle : ℕ) → IsPoolAfter (close_idle now max_idle i pool)
  unfolding close_idle
  close_idle-IsPool now max_idle = elim (Slot-cases (pool.slots i)) [
    | inl (id, s) ↦ rw (s, close_idle) tt
    | inr (inl s) ↦ rw (s, close_idle) (unique, apart)
    | inr (inr (c, s)) ↦
        rw (s, close_idle)
          (elim (Bool-cases (leb max_idle (now - c.last_used))) [
            | inl late ↦
                rw (late, close_idle) (empty-AreUnique pool.slots i pool.next_conn_id unique, apart)
            | inr fresh ↦ rw (fresh, close_idle) (unique, apart)
          ])
  ]

step-IsPool : (e : Event) (pool : GrpcPool) → IsPool pool → IsPoolAfter (step e pool)
unfolding step remove set_idle_timeout
step-IsPool (enters key) pool h = entry-IsPool key pool h
step-IsPool (acquires now i) pool (u, a) = acquire-IsPool i pool u a now
step-IsPool (connects now i success) pool (u, a) = connected-IsPool i pool u a now success
step-IsPool (evicts addr tls_sni) pool h = evict-IsPool addr tls_sni pool h
step-IsPool (closes i conn_id) pool (u, a) = closed-IsPool i pool u a conn_id
step-IsPool (removes key) pool (u, a) = (u, remove_key-AreSeparate key pool.slot_count pool.conns a)
step-IsPool (clears i) pool (u, a) = clear-IsPool i pool u a
step-IsPool (closes_idle now max_idle i) pool (u, a) = close_idle-IsPool i pool u a now max_idle
step-IsPool (sets_idle_timeout timeout) pool h = h

run_after :
    (events : List Event) (p : Option GrpcPool) (q : GrpcPool)
    → IsPoolAfter p
    → and_then p (run events) ≡ some q
    → IsPool q
unfolding run
run_after events none q h e = cc
run_after [] (some p) q h e = subst IsPoolAfter e h
run_after (event ∷ events) (some p) q h e =
    run_after events (step event p) q (step-IsPool event p h) e

new-IsPool : (timeout : Option ℕ) → IsPool (new timeout)
unfolding new
new-IsPool timeout = ((λ i c u. cc, λ i j c u v. cc), tt)

-- Whatever the tasks do, in any order that the mutexes allow, no connection's id stands in two slots,
-- each of them is below the next id to be drawn, and no two keys of the map lead to one slot.
pub run-IsPool :
    (timeout : Option ℕ) (events : List Event) (pool : GrpcPool)
    → run events (new timeout) ≡ some pool
    → IsPool pool
run-IsPool timeout events pool e = run_after events (some (new timeout)) pool (new-IsPool timeout) e
