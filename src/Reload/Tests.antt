-- ===== src/Reload/Tests.antt =====
-- main.rs: concrete runs, and the theorems at concrete inputs.
use tobira.Base.{ℕ, ◌≡◌, refl, true, none, ◌==◌, if◌then◌else◌, Result, ok, err}
use tobira.Config.{Config, RelayConfig, default_relay, default_http, default_subscription, grpc}
use tobira.Reload.{
  preserve_running_relay, LoadError, file_missing, load_config_with_retry, duration_from_seconds,
}

abbrev as_default : Config
as_default = record {
  log_level = "info";
  relay = default_relay;
  http = default_http;
  subscription = default_subscription;
}

abbrev running : RelayConfig
running = record default_relay { network = grpc }

listener_kept : (preserve_running_relay as_default running).1 ≡ true
unfolding preserve_running_relay
listener_kept = refl

zero_disables : duration_from_seconds 0 ≡ none
unfolding duration_from_seconds
zero_disables = refl

-- The file is there at the third attempt.
abbrev third : ℕ → Result LoadError Config
third n = if n == 3 then ok as_default else err file_missing

found_in_time : load_config_with_retry third ≡ ok as_default
unfolding load_config_with_retry
found_in_time = refl
