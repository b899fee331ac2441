-- ===== src/Reload/Updates.antt =====
-- main.rs: the main loop, and what a reload does to the state that the tasks share.
pub mod Consistent
pub mod Failing
mod Tests
use tobira.Base.{
  ℕ, Bool, true, false, Option, none, some, String, List, [], ◌∷◌, if◌then◌else◌, length, Result,
  ok, err, and_then, to_option,
}
use tobira.Auth.{Crypto}
use tobira.Config.{Config, SubscriptionConfig}
use tobira.Node.{VMessNode}
use tobira.Process.{Regexes}
use tobira.Validator.{SocketAddr, Validator, grpc_endpoints}
use tobira.Manager.{build_validator}
use tobira.Manager.Fetch.{Files}
use tobira.Http.{HttpState}
use tobira.Http.Links.{Encoders, new_state}
use tobira.Pool.{GrpcPool, set_idle_timeout, prune_to_endpoints}
use tobira.Reload.{LoadError, preserve_running_relay, duration_from_seconds, load_config_with_retry}

-- What the tasks share: the configuration, the log filter, the relay's idle timeout, the pool, the
-- routing table and the state of the HTTP server.
pub record Shared : Type 0 where
  pub config : Config
  pub log_filter : String
  pub relay_idle_timeout : Option ℕ
  pub pool : GrpcPool
  pub validator : Validator
  pub http : HttpState

-- What one reload meets: the attempts to read the file, the nodes of the sources, if there are any, the
-- way the manager's reload changes the files, which is by its cache file (`Manager.Fetch.reload`), the
-- log filter of the environment, if it holds a valid one, and whether the subscriber of the log takes a
-- filter.
pub record Outside : Type 0 where
  pub reads_config : ℕ → Result LoadError Config
  pub fetches : SubscriptionConfig → Option (List VMessNode)
  pub saves : SubscriptionConfig → Files → Files
  pub rust_log : Option String
  pub takes_filter : String → Bool

pub data Reloaded : Type 0 where
  failed_reload : Reloaded
  reloaded : ℕ → Reloaded

pub data MainEvent : Type 0 where
  quits : MainEvent
  full_requested : Outside → MainEvent
  subs_requested : Outside → MainEvent

-- The environment takes precedence over the configuration.
unfoldable pub log_filter : Option String → Config → String
log_filter none cfg = cfg.log_level
log_filter (some filter) cfg = filter

module _ (parse_addr : String → Option SocketAddr) (parse_uri : String → Option String) (c : Crypto)
    (e : Encoders) (r : Regexes) where
  abbrev with_nodes : List VMessNode → Option Validator → Option (Validator × List VMessNode)
  with_nodes nodes none = none
  with_nodes nodes (some validator) = some (validator, nodes)

  -- The table and the nodes, and the files afterwards: those are written even if no table can be built.
  -- The endpoints that it answers as well are those of the table.
  unfoldable pub load_subscriptions :
      Outside → Files → SubscriptionConfig → Option (Validator × List VMessNode) × Files
  load_subscriptions outside files config = (
    and_then (outside.fetches config)
        (λ nodes. with_nodes nodes (to_option (build_validator parse_addr parse_uri c nodes))),
    outside.saves config files,
  )

  -- The updates behind the log filter's; they wait where a slot of the pool is held.
  unfoldable pub apply_full :
      String → Config → Shared → Validator × List VMessNode → Option (Reloaded × Shared)
  apply_full filter cfg s (validator, nodes) =
      and_then
        (prune_to_endpoints (grpc_endpoints validator)
          (set_idle_timeout (duration_from_seconds cfg.relay.grpc_pool_idle_timeout) s.pool))
        (λ pool. some (
          reloaded (length nodes),
          record {
            config = cfg;
            log_filter = filter;
            relay_idle_timeout = duration_from_seconds cfg.relay.idle_timeout;
            pool = pool;
            validator = validator;
            http =
                new_state e r cfg.http.users cfg.http.outputs nodes cfg.relay.network
                  cfg.relay.service_name;
          },
        ))

  unfoldable pub store_full :
      Outside → Config → Shared → Option (Validator × List VMessNode) → Option (Reloaded × Shared)
  unfolding apply_full log_filter
  store_full outside cfg s none = some (failed_reload, s)
  store_full outside cfg s (some loaded) =
      let effective = (preserve_running_relay cfg s.config.relay).0 in
      let filter = log_filter outside.rust_log effective in
      elim (outside.takes_filter filter) [
        | true ↦ apply_full filter effective s loaded
        | false ↦ some (failed_reload, record s { config = effective })
      ]

  unfoldable pub full_with :
      Outside → Files → Shared → Result LoadError Config → Option (Reloaded × Shared) × Files
  unfolding store_full load_subscriptions
  full_with outside files s (err x) = (some (failed_reload, s), files)
  full_with outside files s (ok cfg) =
      let (loaded, after) = load_subscriptions outside files cfg.subscription in
      (store_full outside cfg s loaded, after)

  unfoldable pub reload_full : Outside → Files → Shared → Option (Reloaded × Shared) × Files
  unfolding full_with
  reload_full outside files s =
      full_with outside files s (load_config_with_retry outside.reads_config)

  pub store_subs : Shared → Option (Validator × List VMessNode) → Option (Reloaded × Shared)
  store_subs s none = some (failed_reload, s)
  store_subs s (some (validator, nodes)) =
      and_then (prune_to_endpoints (grpc_endpoints validator) s.pool) (λ pool. some (
        reloaded (length nodes),
        record s {
          pool = pool;
          validator = validator;
          http =
              new_state e r s.http.users s.config.http.outputs nodes s.config.relay.network
                s.config.relay.service_name;
        },
      ))

  pub reload_subs : Outside → Files → Shared → Option (Reloaded × Shared) × Files
  unfolding store_subs load_subscriptions
  reload_subs outside files s =
      let (loaded, after) = load_subscriptions outside files s.config.subscription in
      (store_subs s loaded, after)

  -- The loop over what the signals and the timers ask for, in the order in which it is taken up.
  pub main_loop : List MainEvent → Files → Shared → Option Shared
  unfolding reload_full reload_subs
  main_loop [] files s = some s
  main_loop (quits ∷ events) files s = some s
  main_loop (full_requested outside ∷ events) files s =
      let (answer, after) = reload_full outside files s in
      and_then answer (λ result. main_loop events after result.1)
  main_loop (subs_requested outside ∷ events) files s =
      let (answer, after) = reload_subs outside files s in
      and_then answer (λ result. main_loop events after result.1)
