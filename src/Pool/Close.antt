-- ===== src/Pool/Close.antt =====
-- relay/transport/grpc.rs, `GrpcPool`: a task that connects keeps the others out, and a connection
-- that closes does not take a newer one along.
use tobira.Base.{
  ℕ, ◌<◌, ◌≡◌, refl, sym, ap, ◌∙◌, inl, inr, true, Option, none, some, String, ◌==◌, if◌then◌else◌,
  arith,
}
use tobira.Pool.{
  PooledConn, Slot, free, connecting, GrpcPool, acquire, Acquired, reused, started, evict,
  connected, closed, lookup, pool_key,
}
use tobira.Pool.Unique.{Slot-cases}

-- What a task finds in the slot after it has begun to connect, and after it has connected.
abbrev slot_after : ℕ → Option (Acquired × GrpcPool) → Slot
slot_after i none = free none
slot_after i (some (how, pool)) = pool.slots i

abbrev id_after : Option (Acquired × GrpcPool) → ℕ
id_after (some (started id, pool)) = id
id_after _ = 0

abbrev pub slot_in : ℕ → Option GrpcPool → Slot
slot_in i none = free none
slot_in i (some pool) = pool.slots i

-- The id of the connection that a task shares.
abbrev pub id_shared : Option (Acquired × GrpcPool) → Option ℕ
id_shared (some (reused id, pool)) = some id
id_shared _ = none

pub put_here : (i : ℕ) (slot other : Slot) → (if i == i then slot else other) ≡ slot
put_here i slot other = ground arith

acquire-started :
    (now i id : ℕ) (pool q : GrpcPool)
    → acquire now i pool ≡ some (started id, q)
    → (id ≡ pool.next_conn_id) × (q.slots i ≡ connecting id)
unfolding acquire
acquire-started now i id pool q a = elim (Slot-cases (pool.slots i)) [
  | inl (other, s) ↦
      let run : acquire now i pool ≡ none = rw (s, acquire) refl in absurd (cc (a, run))
  | inr (inl s) ↦
      let run : id_after (acquire now i pool) ≡ pool.next_conn_id = rw (s, acquire) refl in
      let same : id ≡ pool.next_conn_id = sym (ap id_after a) ∙ run in
      let at : slot_after i (acquire now i pool) ≡ connecting pool.next_conn_id =
        rw (s, acquire) (put_here i (connecting pool.next_conn_id) (pool.slots i)) in
      (same, sym (ap (slot_after i) a) ∙ at ∙ ap connecting (sym same))
  | inr (inr (c, s)) ↦
      let run : id_shared (acquire now i pool) ≡ some c.id = rw (s, acquire) refl in
      let none_shared : id_shared (acquire now i pool) ≡ none = ap id_shared a in
      absurd (cc (run, none_shared))
]

connected-holds :
    (later i id : ℕ) (q r : GrpcPool)
    → q.slots i ≡ connecting id
    → connected later i true q ≡ some r
    → r.slots i ≡ free (some (record { id = id; last_used = later }))
unfolding connected
connected-holds later i id q r s c =
    let run : slot_in i (connected later i true q)
        ≡ free (some (record { id = id; last_used = later })) =
      rw (s, connected) (put_here i _ (q.slots i)) in
    sym (ap (slot_in i) c) ∙ run

closed_other :
    (i conn_id : ℕ) (conn : PooledConn) (pool : GrpcPool)
    → pool.slots i ≡ free (some conn)
    → conn_id < conn.id
    → closed i conn_id pool ≡ some pool
unfolding closed
closed_other i conn_id conn pool s less = rw (s, closed) (ground arith)

-- A task that connected under an id drawn earlier finds, when its connection closes, that the slot's
-- newer connection is not its own, and leaves it where it is.
pub closed-newer :
    (i now later id conn_id : ℕ) (pool q r : GrpcPool)
    → acquire now i pool ≡ some (started id, q)
    → connected later i true q ≡ some r
    → conn_id < pool.next_conn_id
    → closed i conn_id r ≡ some r
closed-newer i now later id conn_id pool q r a c older =
    let (same, held) = acquire-started now i id pool q a in
    closed_other i conn_id (record { id = id; last_used = later }) r
      (connected-holds later i id q r held c) (omega arith)

-- While a task connects, no other task gets the slot, and no eviction touches the pool; when the task
-- has connected, the next task shares its connection.
pub acquire-shared :
    (i now soon later id : ℕ) (addr tls_sni : String) (pool q r : GrpcPool)
    → acquire now i pool ≡ some (started id, q)
    → connected soon i true q ≡ some r
    → lookup (pool_key addr tls_sni) q.conns ≡ some i
    → (acquire later i q ≡ none)
      × (evict addr tls_sni q ≡ q)
      × (id_shared (acquire later i r) ≡ some id)
unfolding acquire evict
acquire-shared i now soon later id addr tls_sni pool q r a c at =
    let (same, held) = acquire-started now i id pool q a in
    (
      rw (held, acquire) refl,
      rw (at, evict) (rw (held, evict) refl),
      rw (connected-holds soon i id q r held c, acquire) refl,
    )
