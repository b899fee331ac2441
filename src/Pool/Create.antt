-- ===== src/Pool/Create.antt =====
-- relay/transport/grpc.rs, `GrpcPool`: `get_or_create` shares the connection that is there, or makes one;
-- `evict` makes room for a new one.
use tobira.Base.{ℕ, suc, ◌≡◌, refl, ap, ◌∙◌, Bool, true, Option, none, some, String, and_then}
use tobira.Pool.{
  PooledConn, Slot, free, connecting, GrpcPool, pool_key, lookup, put_slot, entry, acquire,
  Acquired, reused, started, connected, create, get_or_create, evict,
}
use tobira.Pool.Close.{put_here}

module _ (connects : ℕ → Bool) (now i : ℕ) (addr tls_sni : String) (pool : GrpcPool)
    (at : lookup (pool_key addr tls_sni) pool.conns ≡ some i) where
  entry_found : entry (pool_key addr tls_sni) pool ≡ (i, pool)
  unfolding entry
  entry_found = rw (at, entry) refl

  by_acquire :
      (r : Acquired × GrpcPool)
      → acquire now i pool ≡ some r
      → get_or_create connects now addr tls_sni pool ≡ create connects now i r
  unfolding get_or_create
  by_acquire r e =
      let there : entry (pool_key addr tls_sni) pool ≡ (i, pool) = entry_found in
      ap (λ p. and_then (acquire now p.0 p.1) (create connects now p.0)) there
      ∙ ap (λ o. and_then o (create connects now i)) e

  -- A cached connection is shared.
  pub get_or_create-cached :
      (c : PooledConn)
      → pool.slots i ≡ free (some c)
      → get_or_create connects now addr tls_sni pool
        ≡ some (some c.id, put_slot i (free (some (record c { last_used = now }))) pool)
  unfolding acquire create
  get_or_create-cached c s =
      by_acquire (reused c.id, put_slot i (free (some (record c { last_used = now }))) pool)
        (rw (s, acquire) refl)

  -- An empty slot gets a connection under the next id.
  pub get_or_create-fresh :
      pool.slots i ≡ free none
      → connects pool.next_conn_id ≡ true
      → (q : GrpcPool) × (get_or_create connects now addr tls_sni pool
          ≡ some (some pool.next_conn_id, q))
        × (q.slots i ≡ free (some (record { id = pool.next_conn_id; last_used = now })))
  unfolding acquire create connected
  get_or_create-fresh s made =
      let id = pool.next_conn_id in
      let begun : GrpcPool = put_slot i (connecting id) (record pool { next_conn_id = suc id }) in
      let held : begun.slots i ≡ connecting id = put_here i (connecting id) (pool.slots i) in
      let conn : Slot = free (some (record { id = id; last_used = now })) in
      let done : connected now i true begun ≡ some (put_slot i conn begun) =
        rw (held, connected) refl in
      (
        put_slot i conn begun,
        by_acquire (started id, begun) (rw (s, acquire) refl) ∙ rw (made, create) (rw done refl),
        put_here i conn (begun.slots i),
      )

  -- An eviction empties a slot that no task holds.
  pub evict-free :
      (conn : Option PooledConn)
      → pool.slots i ≡ free conn
      → evict addr tls_sni pool ≡ put_slot i (free none) pool
  unfolding evict
  evict-free conn s = rw (at, evict) (rw (s, evict) refl)
