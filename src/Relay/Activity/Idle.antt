-- ===== src/Relay/Activity/Idle.antt =====
-- relay/activity.rs: a copy is cut off when nothing has moved for the timeout, and only then.
use mathlib.Core.Path.{subst}
use tobira.Base.{
  ℕ, zero, suc, ◌+◌, ◌≤◌, ◌≡◌, ◌≢◌, refl, sym, ap, ◌∙◌, inl, inr, true, Option, none, some, List,
  [], ◌∷◌, ◌++◌, arith, All, leb, Bool-cases, Result, ok, err,
}
use tobira.Relay.Wait.{
  RelayActivity, mark, idle_for, CopyError, idle_too_long, copy_bidirectional_with_idle_timeout,
}
use tobira.Relay.Activity.{
  Polled, pends, breaks, moves, poll_read, poll_write, CopyStep, reads, writes, ticks, ends,
  observed, copy_from,
}

-- The steps stand in the order of their times, from `from` on.
abbrev pub IsOrdered : ℕ → List CopyStep → Type 0
IsOrdered from [] = Unit
IsOrdered from (reads now p ∷ steps) = (from ≤ now) × IsOrdered now steps
IsOrdered from (writes now p ∷ steps) = (from ≤ now) × IsOrdered now steps
IsOrdered from (ticks now ∷ steps) = (from ≤ now) × IsOrdered now steps
IsOrdered from (ends r ∷ steps) = IsOrdered from steps

abbrev pub MovesBy : ℕ → ℕ → ℕ → Polled → Type 0
MovesBy idle now at pends = Unit
MovesBy idle now at breaks = Unit
MovesBy idle now at (moves zero) = Unit
MovesBy idle now at (moves (suc n)) = at + idle ≤ now

-- If the step moves bytes, it is at least `idle` before `now`.
abbrev pub IsQuiet : ℕ → ℕ → CopyStep → Type 0
IsQuiet idle now (reads at p) = MovesBy idle now at p
IsQuiet idle now (writes at p) = MovesBy idle now at p
IsQuiet idle now (ticks at) = Unit
IsQuiet idle now (ends r) = Unit

-- Before a tick nothing has moved for `idle`.
abbrev pub StallsFor : ℕ → ℕ → List CopyStep → Type 0
StallsFor start idle steps =
    (before after : List CopyStep) × (now : ℕ) × (steps ≡ before ++ ticks now ∷ after)
    × (start + idle ≤ now)
    × All (IsQuiet idle now) before

abbrev run : ℕ → RelayActivity → List CopyStep → Option (Result CopyError (ℕ × ℕ))
run timeout activity steps = copy_bidirectional_with_idle_timeout timeout (observed activity steps)

idle_in :
    {a b : ℕ}
    → ◌≡◌ {A = Option (Result CopyError (ℕ × ℕ))}
        (some (err (idle_too_long a)))
        (some (err (idle_too_long b)))
    → a ≡ b
idle_in e = cc

tick_at :
    {idle : ℕ} (now : ℕ) (activity : RelayActivity)
    → idle_for now activity ≡ idle
    → activity.last_activity ≤ now
    → activity.last_activity + idle ≤ now
unfolding idle_for
tick_at now activity e h = omega arith

poll_quiet :
    (timeout now at : ℕ) (p : Polled) (activity : RelayActivity)
    → activity.last_activity + timeout ≤ now
    → MovesBy timeout now at p
    → (poll_read at p activity).last_activity + timeout ≤ now
unfolding poll_read mark
poll_quiet timeout now at pends a h q = h
poll_quiet timeout now at breaks a h q = h
poll_quiet timeout now at (moves zero) a h q = h
poll_quiet timeout now at (moves (suc n)) a h q = q

poll_write-read :
    (at : ℕ) (p : Polled) (activity : RelayActivity)
    → poll_write at p activity ≡ poll_read at p activity
unfolding poll_read poll_write
poll_write-read at pends a = refl
poll_write-read at breaks a = refl
poll_write-read at (moves zero) a = refl
poll_write-read at (moves (suc n)) a = refl

run_ends :
    (timeout now : ℕ) (after : List CopyStep) (activity : RelayActivity) (before : List CopyStep)
    → activity.last_activity + timeout ≤ now
    → All (IsQuiet timeout now) before
    → run timeout activity (before ++ ticks now ∷ after) ≢ none
unfolding copy_bidirectional_with_idle_timeout observed idle_for
run_ends timeout now after a [] h q =
    let cut : leb timeout (idle_for now a) ≡ true = ground arith in
    rw (cut, copy_bidirectional_with_idle_timeout) (λ e. cc)
run_ends timeout now after a (reads at p ∷ before) h (q, all) =
    run_ends timeout now after (poll_read at p a) before (poll_quiet timeout now at p a h q) all
run_ends timeout now after a (writes at p ∷ before) h (q, all) =
    run_ends timeout now after (poll_write at p a) before
      (rw (poll_write-read at p a) (poll_quiet timeout now at p a h q)) all
run_ends timeout now after a (ticks at ∷ before) h (q, all) =
    elim (Bool-cases (leb timeout (idle_for at a))) [
      | inl cut ↦ rw (cut, copy_bidirectional_with_idle_timeout) (λ e. cc)
      | inr early ↦
          rw (early, copy_bidirectional_with_idle_timeout)
            (run_ends timeout now after a before h all)
    ]
run_ends timeout now after a (ends (ok counts) ∷ before) h q = λ e. cc
run_ends timeout now after a (ends (err x) ∷ before) h q = λ e. cc

module _ (timeout idle : ℕ) where
  abbrev Cut : RelayActivity → List CopyStep → Type 0
  Cut activity steps = (timeout ≤ idle) × StallsFor activity.last_activity idle steps

  skip_step :
      (s : CopyStep) (last later : ℕ) (steps : List CopyStep)
      → last ≤ later
      → ((now : ℕ) → later + idle ≤ now → IsQuiet idle now s)
      → (timeout ≤ idle) × StallsFor later idle steps
      → (timeout ≤ idle) × StallsFor last idle (s ∷ steps)
  skip_step s last later steps h quiet (long, (before, after, now, split, stalls, all)) =
      (long, (s ∷ before, after, now, ap (λ t. s ∷ t) split, omega arith, (quiet now stalls, all)))

  poll_read-MovesBy :
      (now : ℕ) (p : Polled) (activity : RelayActivity)
      → activity.last_activity ≤ now
      → (activity.last_activity ≤ (poll_read now p activity).last_activity)
        × ((poll_read now p activity).last_activity ≤ now)
        × ((n : ℕ) → (poll_read now p activity).last_activity + idle ≤ n → MovesBy idle n now p)
  unfolding poll_read mark
  poll_read-MovesBy now pends a h = (omega arith, h, λ n q. tt)
  poll_read-MovesBy now breaks a h = (omega arith, h, λ n q. tt)
  poll_read-MovesBy now (moves zero) a h = (omega arith, h, λ n q. tt)
  poll_read-MovesBy now (moves (suc k)) a h = (h, omega arith, λ n q. q)

  poll_write-MovesBy :
      (now : ℕ) (p : Polled) (activity : RelayActivity)
      → activity.last_activity ≤ now
      → (activity.last_activity ≤ (poll_write now p activity).last_activity)
        × ((poll_write now p activity).last_activity ≤ now)
        × ((n : ℕ) → (poll_write now p activity).last_activity + idle ≤ n → MovesBy idle n now p)
  poll_write-MovesBy now p a h = rw (poll_write-read now p a) (poll_read-MovesBy now p a h)

  run_cut :
      (activity : RelayActivity) (from : ℕ) (steps : List CopyStep)
      → activity.last_activity ≤ from
      → IsOrdered from steps
      → run timeout activity steps ≡ some (err (idle_too_long idle))
      → (timeout ≤ idle) × StallsFor activity.last_activity idle steps
  unfolding copy_bidirectional_with_idle_timeout observed
  run_cut a from [] h o e = cc
  run_cut a from (reads now p ∷ steps) h (later, o) e =
      let (up, by, quiet) = poll_read-MovesBy now p a (omega arith) in
      skip_step (reads now p) a.last_activity (poll_read now p a).last_activity steps up quiet
        (run_cut (poll_read now p a) now steps by o e)
  run_cut a from (writes now p ∷ steps) h (later, o) e =
      let (up, by, quiet) = poll_write-MovesBy now p a (omega arith) in
      skip_step (writes now p) a.last_activity (poll_write now p a).last_activity steps up quiet
        (run_cut (poll_write now p a) now steps by o e)
  run_cut a from (ticks now ∷ steps) h (later, o) e =
      elim (Bool-cases (leb timeout (idle_for now a))) [
        | inl cut ↦
            let last : run timeout a (ticks now ∷ steps)
                ≡ some (err (idle_too_long (idle_for now a))) =
              rw (cut, copy_bidirectional_with_idle_timeout) refl in
            let same : idle_for now a ≡ idle = idle_in (sym last ∙ e) in
            let long : timeout ≤ idle_for now a = ground arith in
            (
              subst (λ i. timeout ≤ i) same long,
              ([], steps, now, refl, tick_at now a same (omega arith), tt),
            )
        | inr early ↦
            let next : run timeout a (ticks now ∷ steps) ≡ run timeout a steps =
              rw (early, copy_bidirectional_with_idle_timeout) refl in
            skip_step (ticks now) a.last_activity a.last_activity steps (omega arith) (λ n q. tt)
              (run_cut a now steps (omega arith) o (sym next ∙ e))
      ]
  run_cut a from (ends (ok counts) ∷ steps) h o e = absurd (cc)
  run_cut a from (ends (err x) ∷ steps) h o e = absurd (cc)

  -- A copy whose steps stand in the order of their times and that is cut off for being idle was so
  -- at a tick of the timer, for the timeout at least: from its start and from every read and write
  -- that moved bytes before, as much time had passed as it says.
  pub copy_from-StallsFor :
      (start : ℕ) (steps : List CopyStep)
      → IsOrdered start steps
      → copy_from timeout start steps ≡ some (err (idle_too_long idle))
      → (timeout ≤ idle) × StallsFor start idle steps
  unfolding copy_from
  copy_from-StallsFor start steps o e =
      run_cut (record { last_activity = start }) start steps (omega arith) o e

-- When, at a tick, nothing has moved for the timeout, since the start of the copy included, the
-- copy has ended by then, if not before.
pub copy_from-ends :
    (timeout start now : ℕ) (before after : List CopyStep)
    → start + timeout ≤ now
    → All (IsQuiet timeout now) before
    → copy_from timeout start (before ++ ticks now ∷ after) ≢ none
unfolding copy_from
copy_from-ends timeout start now before after h all =
    run_ends timeout now after (record { last_activity = start }) before h all
