-- ===== src/Entry/Watch.antt =====
-- main.rs: `watch_file`, which asks for a full reload when the configuration file changes. The events are
-- those of the watcher library, and paths are a parameter, their comparison included.
pub mod Asks
use tobira.Base.{
  ℕ, suc, ◌+◌, ◌≡◌, ◌⊎◌, inl, inr, refl, sym, ap, ◌∙◌, Bool, true, false, not, ◌&&◌, ◌||◌, Option,
  none, some, String, List, [], ◌∷◌, ◌++◌, any, All, str_eq, eq_iff, arith, if◌then◌else◌,
  Bool-cases,
}
use tobira.Config.{Paths}

pub data EventKind : Type 0 where
  any_event : EventKind
  access : EventKind
  create : EventKind
  modify : EventKind
  remove : EventKind
  other : EventKind

pub record Event : Type 0 where
  pub paths : List String
  pub kind : EventKind

-- What `recv_timeout` brings: an event, an error of the watcher, nothing for 200 ms, when the process may
-- have asked the watcher to quit, or the end of the channel.
pub data Received : Type 0 where
  event : Event → Received
  fails : Received
  timed_out : Bool → Received
  disconnected : Received

unfoldable pub is_change : EventKind → Bool
is_change modify = true
is_change create = true
is_change remove = true
is_change any_event = true
is_change access = false
is_change other = false

abbrev or_else : String → Option String → String
or_else default none = default
or_else default (some s) = s

module _ (lib : Paths) where
  -- The file, from the current directory if its path is relative.
  pub target_of : Option String → String → String
  target_of cwd path =
      if lib.is_absolute path then path else elim cwd [ some dir ↦ lib.join dir path | none ↦ path ]

  pub watch_dir_of : String → String
  watch_dir_of target = or_else "." (lib.parent target)

  pub abs_path : String → String → String
  abs_path watch_dir p = if lib.is_absolute p then p else lib.join watch_dir p

-- `same_path` is the comparison of paths, which goes by their components.
module _ (lib : Paths) (same_path : String → String → Bool) where
  pub touches_target : String → Event → Bool
  unfolding watch_dir_of abs_path
  touches_target target ev =
      any (λ p. same_path (abs_path lib (watch_dir_of lib target) p) target) ev.paths

  -- The loop: how many reloads it asks for.
  pub watch_loop : String → List Received → ℕ
  unfolding touches_target is_change
  watch_loop target [] = 0
  watch_loop target (event ev ∷ more) =
      let later = watch_loop target more in
      if touches_target target ev && is_change ev.kind then suc later else later
  watch_loop target (fails ∷ more) = watch_loop target more
  watch_loop target (timed_out quits ∷ more) =
      let later = watch_loop target more in if quits then 0 else later
  watch_loop target (disconnected ∷ more) = 0

  -- A watcher that cannot be made, or cannot watch the directory, asks for none.
  unfoldable pub watch_file : Bool → Bool → Option String → String → List Received → ℕ
  unfolding watch_loop target_of
  watch_file makes_watcher watches cwd path received =
      if not makes_watcher
      then 0
      else if not watches
      then 0
      else watch_loop (target_of lib cwd path) received
