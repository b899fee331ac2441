-- ===== src/Reload/Updates/Failing.antt =====
-- main.rs: a reload that fails leaves the shared state as it was.
use tobira.Base.{◌≡◌, ◌⊎◌, false, Option, none, some, Result, ok, err}
use tobira.Config.{Config}
use tobira.Validator.{Validator}
use tobira.Manager.Fetch.{Files}
use tobira.Reload.{LoadError}
use tobira.Reload.Updates.{Shared, Outside, log_filter, Reloaded, failed_reload, reloaded}

-- What a reload that fails may have changed.
abbrev pub IsUntouched : Outside → Shared → Shared → Type 0
IsUntouched outside s t =
    (t ≡ s)
    ⊎ ((outside.takes_filter (log_filter outside.rust_log t.config) ≡ false)
        × (t ≡ record s { config = t.config }))

-- The files after a reload, by what reading the configuration brought.
abbrev pub HasSaved : Outside → Files → Result LoadError Config → Files → Type 0
HasSaved outside files (err x) after = after ≡ files
HasSaved outside files (ok cfg) after = after ≡ outside.saves cfg.subscription files

abbrev FailedIn : Outside → Shared → Option (Reloaded × Shared) → Type 0
FailedIn outside s none = Unit
FailedIn outside s (some (reloaded n, t)) = Unit
FailedIn outside s (some (failed_reload, t)) = IsUntouched outside s t
