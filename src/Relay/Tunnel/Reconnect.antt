-- ===== src/Relay/Tunnel/Reconnect.antt =====
-- relay/outbound/grpc.rs: a connection of the pool that has died is replaced once, within the call.
use tobira.Base.{ℕ, ◌≡◌, refl, ◌∙◌, true, false, none, some, String, ok}
use tobira.Validator.{Upstream, grpc}
use tobira.Pool.{PooledConn, Slot, free, GrpcPool, pool_key, lookup, put_slot, evict}
use tobira.Pool.Close.{put_here}
use tobira.Pool.Create.{get_or_create-cached, get_or_create-fresh, evict-free}
use tobira.Relay.Tunnel.{Http2, first_try, second_try, request_on, open_grpc_tunnel}

module _ (http : Http2) (now i : ℕ) (upstream : Upstream)
    (service_name tls_sni request_uri : String)
    (over_grpc : upstream.transport ≡ grpc service_name tls_sni request_uri)
    (builds : http.builds_request request_uri ≡ true) (pool : GrpcPool)
    (at : lookup (pool_key upstream.addr tls_sni) pool.conns ≡ some i) (c : PooledConn)
    (cached : pool.slots i ≡ free (some c)) where
  -- The pool when the cached connection has been shared.
  abbrev shared : GrpcPool
  shared = put_slot i (free (some (record c { last_used = now }))) pool

  open_first :
      open_grpc_tunnel http now upstream pool
      ≡ first_try http now upstream.addr service_name tls_sni request_uri (some c.id, shared)
  unfolding open_grpc_tunnel
  open_first =
      rw (over_grpc, open_grpc_tunnel)
        (rw (get_or_create-cached http.connects now i upstream.addr tls_sni pool at c cached) refl)

  -- A tunnel is opened although the endpoint's cached connection is dead, where no other task holds its
  -- slot: if a new connection can be made, under the next id, is ready and takes the request, the tunnel
  -- stands on it, and it is cached.
  pub open_grpc_tunnel-reconnects :
      http.is_ready c.id ≡ false
      → http.connects pool.next_conn_id ≡ true
      → http.is_ready pool.next_conn_id ≡ true
      → http.takes_request pool.next_conn_id ≡ true
      → (q : GrpcPool) × (open_grpc_tunnel http now upstream pool
          ≡ some (
            ok (record {
              service_name = service_name;
              tls_sni = tls_sni;
              connection = pool.next_conn_id;
            }),
            q,
          ))
        × (q.slots i ≡ free (some (record { id = pool.next_conn_id; last_used = now })))
  unfolding first_try second_try request_on
  open_grpc_tunnel-reconnects dead made ready takes =
      let emptied : GrpcPool = put_slot i (free none) shared in
      let used : Slot = free (some (record c { last_used = now })) in
      let out : evict upstream.addr tls_sni shared ≡ emptied =
        evict-free http.connects now i upstream.addr tls_sni shared at
          (some (record c { last_used = now })) (put_here i used (pool.slots i)) in
      let (q, again, held) =
        get_or_create-fresh http.connects now i upstream.addr tls_sni emptied at
          (put_here i (free none) (shared.slots i)) made in
      (
        q,
        open_first
            ∙ rw (builds, first_try)
                (rw (dead, first_try)
                  (rw out (rw again (rw (ready, second_try) (rw (takes, request_on) refl))))),
        held,
      )
