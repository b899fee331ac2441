-- ===== src/Entry/Again.antt =====
-- main.rs: a reload right after the start.
use mathlib.Core.Path.{subst}
use tobira.Base.{
  ℕ, ◌≡◌, refl, sym, ap, ◌∙◌, inl, inr, Bool, true, false, Option, none, some, String, List, Result,
  ok, err, >>=-eq-ok, ok_or, length, eq_iff, arith, Option-cases, and_then, if◌then◌else◌,
}
use tobira.Auth.{Crypto}
use tobira.Config.{Config, RelayConfig, RelayNetwork, tcp, grpc}
use tobira.Node.{VMessNode}
use tobira.Process.{Regexes}
use tobira.Validator.{SocketAddr, Validator}
use tobira.Http.Links.{Encoders}
use tobira.Manager.Fetch.{Files}
use tobira.Pool.{prune_to_endpoints, prune_rounds, set_idle_timeout}
use tobira.Pool
use tobira.Reload.{
  LoadError, listener_changed, preserve_running_relay, same_network, load_config_with_retry,
  retry_loop,
}
use tobira.Reload.Updates.{
  Shared, Outside, log_filter, reloaded, load_subscriptions, apply_full, store_full, full_with,
  reload_full,
}
use tobira.Entry.{
  StartError, no_state, no_tls_config, Started, initial, build_state, of_load, start,
}

same_network_refl : (n : RelayNetwork) → same_network n n ≡ true
same_network_refl tcp = refl
same_network_refl grpc = refl

listener_changed-own : (relay : RelayConfig) → listener_changed relay relay ≡ false
unfolding listener_changed
listener_changed-own relay = ground (
  arith,
  eq_iff relay.listen relay.listen,
  eq_iff relay.service_name relay.service_name,
  same_network_refl relay.network,
)

preserve_running_relay-own : (cfg : Config) → preserve_running_relay cfg cfg.relay ≡ (cfg, false)
unfolding preserve_running_relay
preserve_running_relay-own cfg = rw (listener_changed-own cfg.relay) refl

first_attempt :
    (load : ℕ → Result LoadError Config) (cfg : Config)
    → load 1 ≡ ok cfg
    → load_config_with_retry load ≡ ok cfg
unfolding load_config_with_retry retry_loop
first_attempt load cfg h = rw (h, retry_loop) refl

shared_in : {a : Shared} (b : Shared) → some a ≡ some b → a ≡ b
shared_in b h = cc

loaded_in : (read : Result LoadError Config) (cfg : Config) → of_load read ≡ ok cfg → read ≡ ok cfg
loaded_in (ok x) cfg h = ap ok (cc)
loaded_in (err x) cfg h = cc

abbrev shared_of : Shared → Result StartError Started → Shared
shared_of default (ok started) = started.shared
shared_of default (err x) = default

built_in : (built : Option Shared) (s : Shared) → ok_or built no_state ≡ ok s → built ≡ some s
built_in (some x) s h = cc
built_in none s h = cc

module _ (parse_addr : String → Option SocketAddr) (parse_uri : String → Option String) (c : Crypto)
    (e : Encoders) (r : Regexes) where
  store_full-initial :
      (outside : Outside) (cfg : Config) (validator : Validator) (nodes : List VMessNode)
      → outside.takes_filter (log_filter outside.rust_log cfg) ≡ true
      → let s =
          initial parse_addr parse_uri c e r
            (log_filter outside.rust_log cfg)
            cfg
            (validator, nodes) in
        store_full parse_addr parse_uri c e r outside cfg s (some (validator, nodes))
        ≡ some (reloaded (length nodes), s)
  unfolding store_full initial apply_full prune_to_endpoints prune_rounds set_idle_timeout Pool.new
  store_full-initial outside cfg validator nodes takes =
      let s =
        initial parse_addr parse_uri c e r (log_filter outside.rust_log cfg) cfg
          (validator, nodes) in
      let own = ap (λ p. p.0) (preserve_running_relay-own cfg) in
      rw (own, store_full)
        (rw (takes, store_full)
          (ap
            (λ (x : Config).
              apply_full parse_addr parse_uri c e r (log_filter outside.rust_log x) x s
                (validator, nodes))
            own))

  reload_full-initial :
      (outside : Outside) (files : Files) (cfg : Config) (validator : Validator)
      (nodes : List VMessNode)
      → outside.reads_config 1 ≡ ok cfg
      → (load_subscriptions parse_addr parse_uri c e r outside files cfg.subscription).0
        ≡ some (validator, nodes)
      → outside.takes_filter (log_filter outside.rust_log cfg) ≡ true
      → let s =
          initial parse_addr parse_uri c e r
            (log_filter outside.rust_log cfg)
            cfg
            (validator, nodes) in
        (reload_full parse_addr parse_uri c e r outside files s).0
        ≡ some (reloaded (length nodes), s)
  unfolding reload_full full_with
  reload_full-initial outside files cfg validator nodes reads loads takes =
      let s =
        initial parse_addr parse_uri c e r (log_filter outside.rust_log cfg) cfg
          (validator, nodes) in
      ap
        (λ (x : Result LoadError Config).
          (full_with parse_addr parse_uri c e r outside files s x).0)
        (first_attempt outside.reads_config cfg reads)
      ∙ ap (store_full parse_addr parse_uri c e r outside cfg s) loads
      ∙ store_full-initial outside cfg validator nodes takes

  -- The reload leaves the state as it is, and counts its nodes.
  abbrev pub ChangesNothing : Outside → Files → Shared → Type 0
  ChangesNothing outside files s =
      (n : ℕ) × ((reload_full parse_addr parse_uri c e r outside files s).0 ≡ some (reloaded n, s))

  abbrev and_then_initial : Outside → Config → Option (Validator × List VMessNode) → Option Shared
  and_then_initial outside cfg loads = and_then loads (λ loaded.
      some (initial parse_addr parse_uri c e r (log_filter outside.rust_log cfg) cfg loaded))

  build_state-ChangesNothing :
      (outside : Outside) (first files : Files) (cfg : Config) (s : Shared)
      → outside.reads_config 1 ≡ ok cfg
      → (build_state parse_addr parse_uri c e r outside first cfg).0 ≡ some s
      → outside.takes_filter s.log_filter ≡ true
      → ChangesNothing outside files s
  unfolding build_state initial load_subscriptions
  build_state-ChangesNothing outside first files cfg s reads builds takes =
      elim (Option-cases
        (load_subscriptions parse_addr parse_uri c e r outside first cfg.subscription).0) [
          | inl nothing ↦ absurd (cc (builds, ap (and_then_initial outside cfg) nothing))
          | inr ((validator, nodes), loads) ↦
              let same = shared_in s (sym (ap (and_then_initial outside cfg) loads) ∙ builds) in
              subst (ChangesNothing outside files) same (
                length nodes,
                reload_full-initial outside files cfg validator nodes reads loads
                    (ap (λ (t : Shared). outside.takes_filter t.log_filter) same ∙ takes),
              )
        ]

  -- A reload right after the start, at which the file and the sources are as they were and the log
  -- takes its filter once more, succeeds and changes nothing of the state that the tasks share: the
  -- start and the reload make the same of them.
  pub start-reload_full :
      (builds_tls_config : Bool) (outside : Outside) (first : Files) (started : Started)
      → start parse_addr parse_uri c e r builds_tls_config outside first ≡ ok started
      → outside.takes_filter started.shared.log_filter ≡ true
      → ChangesNothing outside started.files started.shared
  unfolding start
  start-reload_full builds_tls_config outside first started run takes =
      let (cfg, reads, rest) = >>=-eq-ok (of_load (outside.reads_config 1)) _ run in
      let (s, builds, rest) =
        >>=-eq-ok (ok_or (build_state parse_addr parse_uri c e r outside first cfg).0 no_state) _
          rest in
      let (_, tls, rest) =
        >>=-eq-ok (if builds_tls_config then ok (tt {0}) else err no_tls_config) _ rest in
      let (relay_addr, _, rest) = >>=-eq-ok (ok_or (parse_addr _) _) _ rest in
      let (http_addr, _, last) = >>=-eq-ok (ok_or (parse_addr _) _) _ rest in
      let same : s ≡ started.shared = ap (shared_of s) last in
      subst (ChangesNothing outside started.files) same (
        build_state-ChangesNothing outside first started.files cfg s
          (loaded_in (outside.reads_config 1) cfg reads)
          (built_in (build_state parse_addr parse_uri c e r outside first cfg).0 s builds)
          (ap (λ (t : Shared). outside.takes_filter t.log_filter) same ∙ takes))
