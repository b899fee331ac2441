-- ===== src/Entry/Watch/Asks.antt =====
-- main.rs: each change of the configuration file asks for a reload.
use tobira.Base.{
  suc, ◌≡◌, ◌⊎◌, inl, inr, refl, ap, ◌∙◌, Bool, true, false, ◌&&◌, ◌||◌, String, List, [], ◌∷◌,
  ◌++◌, any, All, Bool-cases,
}
use tobira.Config.{Paths}
use tobira.Entry.Watch.{
  EventKind, any_event, access, create, modify, remove, other, Event, Received, event, fails,
  timed_out, disconnected, is_change, watch_dir_of, abs_path, touches_target, watch_loop,
}

or_true : (b : Bool) → (b || true) ≡ true
or_true true = refl
or_true false = refl

-- The file is written, made or taken away, or the watcher does not say what happens to it.
abbrev pub IsChange : EventKind → Type 0
IsChange any_event = Unit
IsChange access = ⊥
IsChange create = Unit
IsChange modify = Unit
IsChange remove = Unit
IsChange other = ⊥

is_change-IsChange : (kind : EventKind) → IsChange kind → is_change kind ≡ true
unfolding is_change
is_change-IsChange any_event h = refl
is_change-IsChange access h = absurd h
is_change-IsChange create h = refl
is_change-IsChange modify h = refl
is_change-IsChange remove h = refl
is_change-IsChange other h = absurd h

module _ (lib : Paths) (same_path : String → String → Bool) where
  -- It goes on after the event.
  abbrev pub GoesOn : Received → Type 0
  GoesOn (event ev) = Unit
  GoesOn fails = Unit
  GoesOn (timed_out quits) = quits ≡ false
  GoesOn disconnected = ⊥

  -- The path is the target's, in full or from its directory.
  abbrev pub Names : String → String → Type 0
  Names target p =
      ((lib.is_absolute p ≡ true) × (same_path p target ≡ true))
      ⊎ ((lib.is_absolute p ≡ false)
          × (same_path (lib.join (watch_dir_of lib target) p) target ≡ true))

  spells_target :
      (target p : String)
      → Names target p
      → same_path (abs_path lib (watch_dir_of lib target) p) target ≡ true
  unfolding abs_path
  spells_target target p (inl (full, same)) = rw full same
  spells_target target p (inr (short, same)) = rw short same

  touches_one :
      (target p : String) (before after : List String)
      → Names target p
      → any (λ q. same_path (abs_path lib (watch_dir_of lib target) q) target) (before ++ p ∷ after)
        ≡ true
  touches_one target p [] after h = rw (spells_target target p h) refl
  touches_one target p (q ∷ before) after h =
      rw (touches_one target p before after h)
        (or_true (same_path (abs_path lib (watch_dir_of lib target) q) target))

  -- While the watcher goes on, each event that says that a file was made, written or taken away, or does
  -- not say what happened, and that names the target, in full or from its directory and among whatever
  -- other paths, asks for just one reload more.
  pub watch_loop-asks :
      (target p : String) (ev : Event) (before after : List String) (earlier later : List Received)
      → All GoesOn earlier
      → ev.paths ≡ before ++ p ∷ after
      → Names target p
      → IsChange ev.kind
      → watch_loop lib same_path target (earlier ++ event ev ∷ later)
        ≡ suc (watch_loop lib same_path target (earlier ++ later))
  unfolding watch_loop touches_target
  watch_loop-asks target p ev before after [] later go split h change =
      let touched : any (λ q. same_path (abs_path lib (watch_dir_of lib target) q) target) ev.paths
          ≡ true =
        ap (any (λ q. same_path (abs_path lib (watch_dir_of lib target) q) target)) split
        ∙ touches_one target p before after h in
      rw (touched, watch_loop) (rw (is_change-IsChange ev.kind change, watch_loop) refl)
  watch_loop-asks target p ev before after (event e ∷ earlier) later (go, all) split h change =
      let ih = watch_loop-asks target p ev before after earlier later all split h change in
      elim (Bool-cases (touches_target lib same_path target e && is_change e.kind)) [
        | inl asks ↦ rw (asks, watch_loop) (ap suc ih)
        | inr skips ↦ rw (skips, watch_loop) ih
      ]
  watch_loop-asks target p ev before after (fails ∷ earlier) later (go, all) split h change =
      watch_loop-asks target p ev before after earlier later all split h change
  watch_loop-asks target p ev before after (timed_out q ∷ earlier) later (go, all) split h change =
      rw (go, watch_loop)
        (watch_loop-asks target p ev before after earlier later all split h change)
  watch_loop-asks target p ev before after (disconnected ∷ earlier) later (go, all) split h change =
      absurd go
