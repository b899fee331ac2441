-- ===== src/Pool.antt =====
-- relay/transport/grpc.rs: `GrpcPool`, the HTTP/2 connections that are kept for each TLS endpoint.
-- The tasks of the relay share the pool: what one of them does between two `await`s is one function.
pub mod Steps
pub mod Separate
pub mod Unique
pub mod Close
pub mod Create
pub mod Rounds
pub mod Prune
pub mod Idle
mod Tests
use tobira.Base.{
  ℕ, zero, suc, ◌+◌, ◌-◌, Bool, true, false, Option, none, some, String, List, [], ◌∷◌, ◌++◌, leb,
  ◌==◌, if◌then◌else◌, str_eq, any, map, keep_if, not, and_then, length,
}
use Prim.Native.String.{◌++◌ as append}

-- Times are milliseconds. The connection's `SendRequest` handles are told apart by its `id`.
pub record PooledConn : Type 0 where
  pub id : ℕ
  pub last_used : ℕ

-- A slot's mutex is held over an `await` by the task alone that found the slot empty and connects,
-- under the id that it drew.
pub data Slot : Type 0 where
  free : Option PooledConn → Slot
  connecting : ℕ → Slot

-- The map from keys to slots, the slots that were ever made (`Arc`s outlive the map's entry), the
-- number of these, and the other fields.
pub record GrpcPool : Type 0 where
  pub conns : List (String × ℕ)
  pub slots : ℕ → Slot
  pub slot_count : ℕ
  pub next_conn_id : ℕ
  pub idle_timeout : Option ℕ

unfoldable pub new : Option ℕ → GrpcPool
new timeout = record {
  conns = [];
  slots = λ i. free none;
  slot_count = 0;
  next_conn_id = 1;
  idle_timeout = timeout;
}

unfoldable pub set_idle_timeout : Option ℕ → GrpcPool → GrpcPool
set_idle_timeout timeout pool = record pool { idle_timeout = timeout }

unfoldable pub pool_key : String → String → String
pool_key addr tls_sni = append tls_sni (append ":" addr)

abbrev pub lookup : String → List (String × ℕ) → Option ℕ
lookup key [] = none
lookup key ((k, i) ∷ conns) = if str_eq key k then some i else lookup key conns

abbrev pub put_slot : ℕ → Slot → GrpcPool → GrpcPool
put_slot i slot pool = record pool { slots = λ j. if j == i then slot else pool.slots j }

-- `conns.entry(key).or_insert_with(..)`: the slot of the key, made where there is none.
pub entry : String → GrpcPool → ℕ × GrpcPool
entry key pool = elim (lookup key pool.conns) [
  | some i ↦ (i, pool)
  | none ↦ (
    pool.slot_count,
    record pool {
      conns = pool.conns ++ (key, pool.slot_count) ∷ [];
      slots = λ j. if j == pool.slot_count then free none else pool.slots j;
      slot_count = suc pool.slot_count;
    },
  )
]

-- What a task does once it has the slot: it shares the connection with this id, or starts one.
pub data Acquired : Type 0 where
  reused : ℕ → Acquired
  started : ℕ → Acquired

-- `slot.lock().await` and what follows it up to `connect_h2`; `none` while the mutex is held.
pub acquire : ℕ → ℕ → GrpcPool → Option (Acquired × GrpcPool)
acquire now i pool = elim (pool.slots i) [
  | connecting id ↦ none
  | free (some conn) ↦
      some (reused conn.id, put_slot i (free (some (record conn { last_used = now }))) pool)
  | free none ↦ some (
    started pool.next_conn_id,
    put_slot i (connecting pool.next_conn_id)
        (record pool { next_conn_id = suc pool.next_conn_id }),
  )
]

-- `connect_h2` is done: the connection goes into the slot, or the slot stays empty.
pub connected : ℕ → ℕ → Bool → GrpcPool → Option GrpcPool
connected now i success pool = elim (pool.slots i) [
  | free conn ↦ none
  | connecting id ↦ some (
      put_slot i (free (if success then some (record { id = id; last_used = now }) else none)) pool)
]

-- `try_lock`: a slot whose mutex is held stays as it is.
pub evict : String → String → GrpcPool → GrpcPool
evict addr tls_sni pool = elim (lookup (pool_key addr tls_sni) pool.conns) [
  | none ↦ pool
  | some i ↦ elim (pool.slots i) [ connecting id ↦ pool | free conn ↦ put_slot i (free none) pool ]
]

-- The task that `connect_h2` spawns, when the connection `conn_id` has closed.
pub closed : ℕ → ℕ → GrpcPool → Option GrpcPool
closed i conn_id pool = elim (pool.slots i) [
  | connecting id ↦ none
  | free none ↦ some pool
  | free (some conn) ↦ some (if conn.id == conn_id then put_slot i (free none) pool else pool)
]

abbrev pub remove_key : String → List (String × ℕ) → List (String × ℕ)
remove_key key [] = []
remove_key key ((k, i) ∷ conns) =
    if str_eq key k then remove_key key conns else (k, i) ∷ remove_key key conns

-- A round of `prune_to_endpoints`: the key goes, and its slot is emptied once its mutex is free.
unfoldable pub remove : String → GrpcPool → GrpcPool
remove key pool = record pool { conns = remove_key key pool.conns }

unfoldable pub clear : ℕ → GrpcPool → Option GrpcPool
clear i pool = elim (pool.slots i) [
  | connecting id ↦ none
  | free conn ↦ some (put_slot i (free none) pool)
]

-- A round of `prune_idle_older_than`: `now - last_used` stops at 0.
pub close_idle : ℕ → ℕ → ℕ → GrpcPool → Option GrpcPool
close_idle now max_idle i pool = elim (pool.slots i) [
  | connecting id ↦ none
  | free none ↦ some pool
  | free (some conn) ↦
      some (if leb max_idle (now - conn.last_used) then put_slot i (free none) pool else pool)
]

-- The whole of `prune_to_endpoints`, where no other task steps in between; `none` where a round has to
-- wait for a mutex.
abbrev pub stale : List String → List (String × ℕ) → List (String × ℕ)
stale active conns = keep_if (λ e. not (any (str_eq e.0) active)) conns

unfoldable pub prune_rounds : List (String × ℕ) → GrpcPool → Option GrpcPool
unfolding remove clear
prune_rounds [] pool = some pool
prune_rounds ((key, i) ∷ entries) pool = elim (lookup key pool.conns) [
  | none ↦ prune_rounds entries pool
  | some found ↦ and_then (clear i (remove key pool)) (prune_rounds entries)
]

unfoldable pub prune_to_endpoints : List (String × String) → GrpcPool → Option GrpcPool
unfolding prune_rounds
prune_to_endpoints active pool =
    prune_rounds (stale (map (λ e. pool_key e.0 e.1) active) pool.conns) pool

-- The whole of `prune_idle`, with the time at which it starts.
pub idle_rounds : ℕ → ℕ → List (String × ℕ) → GrpcPool → Option GrpcPool
idle_rounds now max_idle [] pool = some pool
idle_rounds now max_idle ((key, i) ∷ entries) pool =
    and_then (close_idle now max_idle i pool) (idle_rounds now max_idle entries)

pub prune_idle : ℕ → GrpcPool → Option GrpcPool
unfolding idle_rounds
prune_idle now pool = elim pool.idle_timeout [
  | none ↦ some pool
  | some max_idle ↦ idle_rounds now max_idle pool.conns pool
]

-- `count_cached_conns` on the slots of the map; `none` where a mutex is held.
pub count_cached_conns : List (String × ℕ) → GrpcPool → Option ℕ
count_cached_conns [] pool = some 0
count_cached_conns ((key, i) ∷ entries) pool = elim (pool.slots i) [
  | connecting id ↦ none
  | free none ↦ count_cached_conns entries pool
  | free (some conn) ↦ and_then (count_cached_conns entries pool) (λ n. some (suc n))
]

pub pool_counts : GrpcPool → Option (ℕ × ℕ)
unfolding count_cached_conns
pool_counts pool = and_then (count_cached_conns pool.conns pool) (λ n. some (length pool.conns, n))

-- The whole of `get_or_create`, where no other task steps in between: the id of the connection, or
-- none where `connect_h2` fails. `connects` says of an id whether the connection under it succeeds.
pub create : (ℕ → Bool) → ℕ → ℕ → Acquired × GrpcPool → Option (Option ℕ × GrpcPool)
unfolding connected
create connects now i (reused id, pool) = some (some id, pool)
create connects now i (started id, pool) =
    and_then (connected now i (connects id) pool)
      (λ done. some (if connects id then some id else none, done))

pub get_or_create : (ℕ → Bool) → ℕ → String → String → GrpcPool → Option (Option ℕ × GrpcPool)
unfolding entry acquire create
get_or_create connects now addr tls_sni pool =
    let (i, with_slot) = entry (pool_key addr tls_sni) pool in
    and_then (acquire now i with_slot) (create connects now i)
