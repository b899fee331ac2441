-- ===== src/Relay/Activity/Tests.antt =====
-- relay/activity.rs: concrete copies, and the theorems at concrete inputs.
use tobira.Base.{◌≤◌, ◌≡◌, ◌≢◌, refl, some, none, List, [], ◌∷◌, ◌++◌, arith, ok, err}
use tobira.Relay.Wait.{idle_for, mark, idle_too_long, copy_bidirectional_with_idle_timeout}
use tobira.Relay.Activity.{
  moves, poll_read, poll_write, CopyStep, reads, writes, ticks, ends, observed, copy_from,
}
use tobira.Relay.Activity.Idle.{StallsFor, copy_from-StallsFor, copy_from-ends}

-- A read moves bytes at four seconds, a write moves none at eight.
abbrev early_steps : List CopyStep
early_steps = reads 4_000 (moves 7) ∷ ticks 5_000 ∷ writes 8_000 (moves 0) ∷ []

abbrev steps : List CopyStep
steps = early_steps ++ ticks 14_000 ∷ ends (ok (7, 0)) ∷ []

idle_from_the_read : copy_from 10_000 0 steps ≡ some (err (idle_too_long 10_000))
unfolding copy_from observed poll_read poll_write mark idle_for copy_bidirectional_with_idle_timeout
idle_from_the_read = refl

in_time : copy_from 10_001 0 steps ≡ some (ok (7, 0))
unfolding copy_from observed poll_read poll_write mark idle_for copy_bidirectional_with_idle_timeout
in_time = refl

copy_from-StallsFor_example : (10_000 ≤ 10_000) × StallsFor 0 10_000 steps
copy_from-StallsFor_example =
    copy_from-StallsFor 10_000 10_000 0 steps (omega arith) idle_from_the_read

copy_from-ends_example : copy_from 10_000 0 steps ≢ none
copy_from-ends_example =
    copy_from-ends 10_000 0 14_000 early_steps (ends (ok (7, 0)) ∷ []) (omega arith) (omega arith)
