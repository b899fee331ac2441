-- ===== src/Relay/Activity.antt =====
-- relay/activity.rs: `ActivityStream`, which marks the reads and writes that move bytes, under
-- `copy_bidirectional_with_idle_timeout`; and relay/runtime.rs.
pub mod Idle
mod Tests
use tobira.Base.{ℕ, zero, suc, Option, List, [], ◌∷◌, Bool, ltb, if◌then◌else◌, Result}
use tobira.Validator.{Validator}
use tobira.Pool.{GrpcPool}
use tobira.Relay.Wait.{
  RelayActivity, mark, idle_for, CopyEvent, copied, ticks_at, CopyError,
  copy_bidirectional_with_idle_timeout,
}

-- What a poll of the stream underneath answers: not ready, an error, or how many bytes it moved.
pub data Polled : Type 0 where
  pends : Polled
  breaks : Polled
  moves : ℕ → Polled

pub poll_read : ℕ → Polled → RelayActivity → RelayActivity
poll_read now pends activity = activity
poll_read now breaks activity = activity
poll_read now (moves zero) activity = activity
poll_read now (moves (suc n)) activity = mark now activity

pub poll_write : ℕ → Polled → RelayActivity → RelayActivity
poll_write now pends activity = activity
poll_write now breaks activity = activity
poll_write now (moves zero) activity = activity
poll_write now (moves (suc n)) activity = mark now activity

-- What happens to the copy, and when: a poll of one of its two streams, a tick of the timer, or its end.
-- Flushes and shutdowns go through unmarked, as polls that pend.
pub data CopyStep : Type 0 where
  reads : ℕ → Polled → CopyStep
  writes : ℕ → Polled → CopyStep
  ticks : ℕ → CopyStep
  ends : Result Bool (ℕ × ℕ) → CopyStep

-- What the `select!` sees of it.
pub observed : RelayActivity → List CopyStep → List CopyEvent
observed activity [] = []
observed activity (reads now p ∷ steps) = observed (poll_read now p activity) steps
observed activity (writes now p ∷ steps) = observed (poll_write now p activity) steps
observed activity (ticks now ∷ steps) = ticks_at (idle_for now activity) ∷ observed activity steps
observed activity (ends r ∷ steps) = copied r ∷ observed activity steps

-- A copy from the time `start` on, at which the activity is made.
pub copy_from : ℕ → ℕ → List CopyStep → Option (Result CopyError (ℕ × ℕ))
copy_from timeout start steps =
    copy_bidirectional_with_idle_timeout timeout (observed (record { last_activity = start }) steps)

pub record RelayRuntime : Type 0 where
  pub validator : Validator
  pub grpc_pool : GrpcPool
  pub relay_idle_timeout : Option ℕ

pub new : Validator → GrpcPool → Option ℕ → RelayRuntime
new validator grpc_pool relay_idle_timeout = record {
  validator = validator;
  grpc_pool = grpc_pool;
  relay_idle_timeout = relay_idle_timeout;
}

pub set_relay_idle_timeout : Option ℕ → RelayRuntime → RelayRuntime
set_relay_idle_timeout relay_idle_timeout runtime = record runtime {
  relay_idle_timeout = relay_idle_timeout;
}
