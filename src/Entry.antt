-- ===== src/Entry.antt =====
-- main.rs: the start of the process, up to its tasks. Each task that is spawned is modelled with its
-- component: the relay's listener in `Relay`, the pruner in `Pool`, the reloads in `Reload`.
pub mod Watch
pub mod Again
mod Tests
use Prim.Native.String.{◌++◌ as append}
use tobira.Base.{
  ℕ, suc, Bool, true, false, Option, none, some, String, List, if◌then◌else◌, ◌==◌, Result, ok, err,
  ◌>>=◌, ok_or, and_then,
}
use tobira.Auth.{Crypto}
use tobira.Config.{Config}
use tobira.Node.{VMessNode}
use tobira.Process.{Regexes}
use tobira.Process.Dedup.{decimal}
use tobira.Validator.{SocketAddr, Validator}
use tobira.Http.Links.{Encoders, new_state}
use tobira.Pool
use tobira.Relay.Core.{Inbound, from_config}
use tobira.Reload.{LoadError, duration_from_seconds}
use tobira.Manager.Fetch.{Files}
use tobira.Reload.Updates.{Shared, Outside, log_filter, load_subscriptions}

pub data StartError : Type 0 where
  bad_config : LoadError → StartError
  no_state : StartError
  no_tls_config : StartError
  bad_relay_addr : String → StartError
  bad_http_addr : String → StartError

-- `format!("{}:{}", listen, port)`
abbrev addr_text : String → ℕ → String
addr_text listen port = append listen (append ":" (decimal (suc port) port ""))

-- What runs: the state that the tasks share, where the two listeners listen, the inbound of the relay,
-- the seconds between the requests of the subscription timer, if there is one, and the files.
pub record Started : Type 0 where
  pub shared : Shared
  pub relay_addr : SocketAddr
  pub http_addr : SocketAddr
  pub inbound : Inbound
  pub subscription_timer : Option ℕ
  pub files : Files

pub spawn_subscription_timer : Config → Option ℕ
spawn_subscription_timer cfg =
    if cfg.subscription.update_interval == 0 then none else some cfg.subscription.update_interval

abbrev pub of_load : Result LoadError Config → Result StartError Config
of_load (ok cfg) = ok cfg
of_load (err x) = err (bad_config x)

module _ (parse_addr : String → Option SocketAddr) (parse_uri : String → Option String) (c : Crypto)
    (e : Encoders) (r : Regexes) where
  -- The state that the tasks share at first.
  pub initial : String → Config → Validator × List VMessNode → Shared
  initial filter cfg (validator, nodes) = record {
    config = cfg;
    log_filter = filter;
    relay_idle_timeout = duration_from_seconds cfg.relay.idle_timeout;
    pool = Pool.new (duration_from_seconds cfg.relay.grpc_pool_idle_timeout);
    validator = validator;
    http =
        new_state e r cfg.http.users cfg.http.outputs nodes cfg.relay.network
          cfg.relay.service_name;
  }

  -- `build_state`, and what `main` puts with it.
  pub build_state : Outside → Files → Config → Option Shared × Files
  build_state outside files cfg =
      let (loads, after) =
        load_subscriptions parse_addr parse_uri c e r outside files cfg.subscription in
      (
        and_then loads (λ loaded. some (initial (log_filter outside.rust_log cfg) cfg loaded)),
        after,
      )

  -- The configuration is read once; the pool needs a TLS configuration.
  pub start : Bool → Outside → Files → Result StartError Started
  unfolding build_state
  start builds_tls_config outside files = do
    cfg ← of_load (outside.reads_config 1)
    shared ← ok_or (build_state outside files cfg).0 no_state
    _ ← if builds_tls_config then ok (tt {0}) else err no_tls_config
    let relay_text = addr_text cfg.relay.listen cfg.relay.port
    relay_addr ← ok_or (parse_addr relay_text) (bad_relay_addr relay_text)
    let http_text = addr_text cfg.http.listen cfg.http.port
    http_addr ← ok_or (parse_addr http_text) (bad_http_addr http_text)
    ok (record {
      shared = shared;
      relay_addr = relay_addr;
      http_addr = http_addr;
      inbound = from_config cfg.relay;
      subscription_timer = spawn_subscription_timer cfg;
      files = (build_state outside files cfg).1;
    })
