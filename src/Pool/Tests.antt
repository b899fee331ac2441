-- ===== src/Pool/Tests.antt =====
-- relay/transport/grpc.rs, `GrpcPool`: concrete runs, and the theorems at concrete inputs.
use tobira.Base.{ℕ, zero, suc, ◌≡◌, refl, true, none, some, String, List, [], ◌∷◌, arith}
use tobira.Pool.{
  lookup, Slot, free, GrpcPool, new, entry, acquire, connected, closed, evict, pool_key,
  prune_to_endpoints, prune_rounds, remove, clear, pool_counts, count_cached_conns,
}
use tobira.Pool.Steps.{Event, enters, acquires, connects, step, run}
use tobira.Pool.Unique.{IsPool, run-IsPool}
use tobira.Pool.Close.{closed-newer}
use tobira.Pool.Prune.{prune_to_endpoints-Keeps}

abbrev first_two : List (String × ℕ)
first_two = ("a.example:10.0.0.1:443", 0) ∷ ("b.example:10.0.0.2:443", 1) ∷ []

abbrev held_slots : ℕ → Slot
held_slots zero = free (some (record { id = 1; last_used = 500 }))
held_slots (suc zero) = free (some (record { id = 2; last_used = 9000 }))
held_slots (suc (suc i)) = free none

-- Two endpoints, each with a connection.
abbrev two_conns : GrpcPool
two_conns = record {
  conns = first_two;
  slots = held_slots;
  slot_count = 2;
  next_conn_id = 3;
  idle_timeout = some 5000;
}

abbrev two_events : List Event
two_events = enters "a.example:10.0.0.1:443" ∷ acquires 100 0 ∷ connects 500 0 true ∷ []

abbrev after_two_events : GrpcPool
unfolding new entry acquire connected
after_two_events = elim (run two_events (new none)) [ none ↦ new none | some pool ↦ pool ]

run-IsPool_example : IsPool after_two_events
unfolding run step new entry acquire connected
run-IsPool_example = run-IsPool none two_events after_two_events refl

-- A pool in which the endpoint's connection 1 has been evicted.
abbrev evicted : GrpcPool
unfolding evict
evicted = evict "10.0.0.1:443" "a.example" two_conns

abbrev at_work : GrpcPool
unfolding acquire
at_work = elim (acquire 700 0 evicted) [ none ↦ evicted | some (how, pool) ↦ pool ]

abbrev done : GrpcPool
unfolding connected
done = elim (connected 900 0 true at_work) [ none ↦ at_work | some pool ↦ pool ]

closed-newer_example : closed 0 1 done ≡ some done
unfolding acquire connected evict pool_key
closed-newer_example = closed-newer 0 700 900 3 1 evicted at_work done refl refl (omega arith)

abbrev only_b : List (String × String)
only_b = ("10.0.0.2:443", "b.example") ∷ []

abbrev pruned : GrpcPool
unfolding prune_to_endpoints prune_rounds remove clear pool_key
pruned = elim (prune_to_endpoints only_b two_conns) [ none ↦ two_conns | some pool ↦ pool ]

prune_to_endpoints-Keeps_example :
    (lookup "b.example:10.0.0.2:443" pruned.conns ≡ some 1) × (pruned.slots 1 ≡ two_conns.slots 1)
unfolding prune_to_endpoints prune_rounds remove clear pool_key
prune_to_endpoints-Keeps_example =
    prune_to_endpoints-Keeps only_b two_conns pruned "b.example:10.0.0.2:443" 1
      (omega arith, ((λ e. omega arith), tt), (omega arith, tt, tt)) refl refl refl

counts : pool_counts two_conns ≡ some (2, 2)
unfolding pool_counts count_cached_conns
counts = refl
