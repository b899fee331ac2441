-- ===== src/Pool/Steps.antt =====
-- relay/transport/grpc.rs, `GrpcPool`: what the tasks do to the pool, in any order.
use tobira.Base.{ℕ, Bool, Option, some, String, List, [], ◌∷◌, and_then}
use tobira.Pool.{
  GrpcPool, set_idle_timeout, entry, acquire, connected, evict, closed, remove, clear, close_idle,
}

-- One task's work between two `await`s; a slot's number stands for the `Arc` that the task holds.
pub data Event : Type 0 where
  enters : String → Event
  acquires : ℕ → ℕ → Event
  connects : ℕ → ℕ → Bool → Event
  evicts : String → String → Event
  closes : ℕ → ℕ → Event
  removes : String → Event
  clears : ℕ → Event
  closes_idle : ℕ → ℕ → ℕ → Event
  sets_idle_timeout : Option ℕ → Event

-- `none` where the event cannot happen now, since a mutex is held, or none is.
unfoldable pub step : Event → GrpcPool → Option GrpcPool
step (enters key) pool = some (entry key pool).1
step (acquires now i) pool = and_then (acquire now i pool) (λ r. some r.1)
step (connects now i success) pool = connected now i success pool
step (evicts addr tls_sni) pool = some (evict addr tls_sni pool)
step (closes i conn_id) pool = closed i conn_id pool
step (removes key) pool = some (remove key pool)
step (clears i) pool = clear i pool
step (closes_idle now max_idle i) pool = close_idle now max_idle i pool
step (sets_idle_timeout timeout) pool = some (set_idle_timeout timeout pool)

unfoldable pub run : List Event → GrpcPool → Option GrpcPool
unfolding step
run [] pool = some pool
run (e ∷ events) pool = and_then (step e pool) (run events)
