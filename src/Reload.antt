-- ===== src/Reload.antt =====
-- main.rs: what a reload of the configuration keeps and retries.
pub mod Keeps
pub mod Updates
mod Tests
use tobira.Base.{
  ℕ, zero, suc, ◌+◌, Bool, true, false, ◌||◌, ◌&&◌, not, Option, none, some, String, str_eq, ◌==◌,
  ltb, Result, ok, err, if◌then◌else◌,
}
use tobira.Config.{Config, RelayConfig, RelayNetwork, tcp, grpc}

abbrev pub same_network : RelayNetwork → RelayNetwork → Bool
same_network tcp tcp = true
same_network tcp grpc = false
same_network grpc tcp = false
same_network grpc grpc = true

unfoldable pub listener_changed : RelayConfig → RelayConfig → Bool
listener_changed new_relay running_relay =
    not (str_eq new_relay.listen running_relay.listen)
    || not (new_relay.port == running_relay.port)
    || not (same_network new_relay.network running_relay.network)
    || not (str_eq new_relay.service_name running_relay.service_name)

unfoldable pub preserve_running_relay : Config → RelayConfig → Config × Bool
unfolding listener_changed
preserve_running_relay cfg running_relay =
    if not (listener_changed cfg.relay running_relay) then (cfg, false) else (
      record cfg {
        relay = record cfg.relay {
          listen = running_relay.listen;
          port = running_relay.port;
          network = running_relay.network;
          service_name = running_relay.service_name;
        };
      },
      true,
    )

pub duration_from_seconds : ℕ → Option ℕ
duration_from_seconds seconds = if seconds == 0 then none else some seconds

-- Why `config::load` fails: the file is not there, or something else.
pub data LoadError : Type 0 where
  file_missing : LoadError
  other_error : LoadError

abbrev pub max_attempts : ℕ
max_attempts = 6

-- The loop over the attempts, of which `left` are still to come after this one; `load n` is what the
-- attempt `n` brings.
unfoldable pub retry_loop : (ℕ → Result LoadError Config) → ℕ → ℕ → Result LoadError Config
retry_loop load attempt zero = load attempt
retry_loop load attempt (suc left) =
    let again = retry_loop load (attempt + 1) left in
    elim (load attempt) [
      | ok cfg ↦ ok cfg
      | err e ↦ elim e [ file_missing ↦ again | other_error ↦ err other_error ]
    ]

unfoldable pub load_config_with_retry : (ℕ → Result LoadError Config) → Result LoadError Config
unfolding retry_loop
load_config_with_retry load = retry_loop load 1 5
