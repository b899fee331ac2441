-- ===== src/Reload/Updates/Consistent.antt =====
-- main.rs: what every reload keeps, and that the pool fits the table when one has succeeded.
use tobira.Base.{
  ℕ, ◌≡◌, refl, sym, ap, ◌∙◌, inl, inr, false, Option, none, some, String, List, [], ◌∷◌, any,
  str_eq, Bool-cases, Option-cases, Result, ok, err, and_then,
}
use mathlib.Core.Path.{subst}
use tobira.Auth.{Crypto}
use tobira.Config.{Config}
use tobira.Node.{VMessNode}
use tobira.Process.{Regexes}
use tobira.Validator.{SocketAddr, Validator, grpc_endpoints}
use tobira.Http.Links.{Encoders}
use tobira.Manager.Fetch.{Files}
use tobira.Pool.{free, GrpcPool, lookup, set_idle_timeout, prune_to_endpoints}
use tobira.Pool.Prune.{active_keys, prune_to_endpoints-lookup, prune_to_endpoints-empties}
use tobira.Reload.{preserve_running_relay, LoadError, load_config_with_retry, duration_from_seconds}
use tobira.Reload.Keeps.{IsSameListener, preserve_running_relay-IsSameListener}
use tobira.Reload.Updates.{
  Shared, Outside, log_filter, Reloaded, failed_reload, reloaded, MainEvent, quits, full_requested,
  subs_requested, load_subscriptions, apply_full, store_full, full_with, reload_full, store_subs,
  reload_subs, main_loop,
}

-- The same listener as in the state before.
abbrev pub KeepsListener : Shared → Shared → Type 0
KeepsListener before after = IsSameListener after.config.relay before.config.relay

abbrev KeepsIn : Shared → Option (Reloaded × Shared) → Type 0
KeepsIn before none = Unit
KeepsIn before (some (how, after)) = KeepsListener before after

abbrev state_in : Shared → Option Shared → Shared
state_in default none = default
state_in default (some s) = s

-- No key of the pool is that of an endpoint outside of the routing table, and the slot that such a key
-- led to before is empty.
abbrev pub IsPruned : Shared → Shared → Type 0
IsPruned before after =
    (k : String)
    → any (str_eq k) (active_keys (grpc_endpoints after.validator)) ≡ false
    → (lookup k after.pool.conns ≡ none)
      × ((i : ℕ) → lookup k before.pool.conns ≡ some i → after.pool.slots i ≡ free none)

abbrev PrunedIn : Shared → Option (Reloaded × Shared) → Type 0
PrunedIn before none = Unit
PrunedIn before (some (failed_reload, after)) = Unit
PrunedIn before (some (reloaded n, after)) = IsPruned before after

module _ (parse_addr : String → Option SocketAddr) (parse_uri : String → Option String) (c : Crypto)
    (e : Encoders) (r : Regexes) where
  apply_full-KeepsIn :
      (filter : String) (cfg : Config) (s : Shared) (loaded : Validator × List VMessNode)
      → IsSameListener cfg.relay s.config.relay
      → KeepsIn s (apply_full parse_addr parse_uri c e r filter cfg s loaded)
  unfolding apply_full
  apply_full-KeepsIn filter cfg s (validator, nodes) h =
      elim (Option-cases (
        prune_to_endpoints (grpc_endpoints validator)
          (set_idle_timeout (duration_from_seconds cfg.relay.grpc_pool_idle_timeout) s.pool))) [
            | inl waits ↦ rw (waits, apply_full) tt
            | inr (pool, done) ↦ rw (done, apply_full) h
          ]

  store_full-KeepsIn :
      (outside : Outside) (cfg : Config) (s : Shared) (loaded : Option (Validator × List VMessNode))
      → KeepsIn s (store_full parse_addr parse_uri c e r outside cfg s loaded)
  unfolding store_full
  store_full-KeepsIn outside cfg s none = (refl, refl, refl, refl)
  store_full-KeepsIn outside cfg s (some loaded) =
      let kept = (preserve_running_relay-IsSameListener cfg s.config.relay).0 in
      let effective = (preserve_running_relay cfg s.config.relay).0 in
      let filter = log_filter outside.rust_log effective in
      elim (Bool-cases (outside.takes_filter filter)) [
        | inl taken ↦ rw (taken, store_full) (apply_full-KeepsIn filter effective s loaded kept)
        | inr refused ↦ rw (refused, store_full) kept
      ]

  full_with-KeepsIn :
      (outside : Outside) (files : Files) (s : Shared) (read : Result LoadError Config)
      → KeepsIn s (full_with parse_addr parse_uri c e r outside files s read).0
  unfolding full_with
  full_with-KeepsIn outside files s (err x) = (refl, refl, refl, refl)
  full_with-KeepsIn outside files s (ok cfg) = store_full-KeepsIn outside cfg s _

  store_subs-KeepsIn :
      (s : Shared) (loaded : Option (Validator × List VMessNode))
      → KeepsIn s (store_subs parse_addr parse_uri c e r s loaded)
  unfolding store_subs
  store_subs-KeepsIn s none = (refl, refl, refl, refl)
  store_subs-KeepsIn s (some (validator, nodes)) =
      elim (Option-cases (prune_to_endpoints (grpc_endpoints validator) s.pool)) [
        | inl waits ↦ rw (waits, store_subs) tt
        | inr (pool, done) ↦ rw (done, store_subs) (refl, refl, refl, refl)
      ]

  trans_listener : (a b d : Shared) → KeepsListener a b → KeepsListener b d → KeepsListener a d
  trans_listener a b d (p, q, u, v) (p', q', u', v') = (p' ∙ p, q' ∙ q, u' ∙ u, v' ∙ v)

  -- Whatever the reloads bring, in whatever order they are asked for, the settings of the listener that
  -- runs stay in the configuration that the tasks share.
  pub main_loop-KeepsListener :
      (events : List MainEvent) (files : Files) (s t : Shared)
      → main_loop parse_addr parse_uri c e r events files s ≡ some t
      → KeepsListener s t
  unfolding main_loop reload_full reload_subs
  main_loop-KeepsListener [] files s t h =
      subst (KeepsListener s) (ap (state_in s) h) (refl, refl, refl, refl)
  main_loop-KeepsListener (quits ∷ events) files s t h =
      subst (KeepsListener s) (ap (state_in s) h) (refl, refl, refl, refl)
  main_loop-KeepsListener (full_requested outside ∷ events) files s t h =
      let after = (reload_full parse_addr parse_uri c e r outside files s).1 in
      elim (Option-cases (reload_full parse_addr parse_uri c e r outside files s).0) [
        | inl waits ↦
            let run : main_loop parse_addr parse_uri c e r (full_requested outside ∷ events) files s
                ≡ none =
              ap
                (λ o.
                  and_then o (λ result. main_loop parse_addr parse_uri c e r events after result.1))
                waits in
            absurd (cc (h, run))
        | inr ((how, s1), done) ↦
            let run : main_loop parse_addr parse_uri c e r (full_requested outside ∷ events) files s
                ≡ main_loop parse_addr parse_uri c e r events after s1 =
              ap
                (λ o.
                  and_then o (λ result. main_loop parse_addr parse_uri c e r events after result.1))
                done in
            trans_listener s s1 t
              (subst (KeepsIn s) done
                (full_with-KeepsIn outside files s (load_config_with_retry outside.reads_config)))
              (main_loop-KeepsListener events after s1 t (sym run ∙ h))
      ]
  main_loop-KeepsListener (subs_requested outside ∷ events) files s t h =
      let after = (reload_subs parse_addr parse_uri c e r outside files s).1 in
      elim (Option-cases (reload_subs parse_addr parse_uri c e r outside files s).0) [
        | inl waits ↦
            let run : main_loop parse_addr parse_uri c e r (subs_requested outside ∷ events) files s
                ≡ none =
              ap
                (λ o.
                  and_then o (λ result. main_loop parse_addr parse_uri c e r events after result.1))
                waits in
            absurd (cc (h, run))
        | inr ((how, s1), done) ↦
            let run : main_loop parse_addr parse_uri c e r (subs_requested outside ∷ events) files s
                ≡ main_loop parse_addr parse_uri c e r events after s1 =
              ap
                (λ o.
                  and_then o (λ result. main_loop parse_addr parse_uri c e r events after result.1))
                done in
            trans_listener s s1 t
              (subst (KeepsIn s) done (
                store_subs-KeepsIn s
                  (load_subscriptions parse_addr parse_uri c e r outside files
                    s.config.subscription).0))
              (main_loop-KeepsListener events after s1 t (sym run ∙ h))
      ]

  pruned :
      (validator : Validator) (before after : GrpcPool) (k : String)
      → prune_to_endpoints (grpc_endpoints validator) before ≡ some after
      → any (str_eq k) (active_keys (grpc_endpoints validator)) ≡ false
      → (lookup k after.conns ≡ none)
        × ((i : ℕ) → lookup k before.conns ≡ some i → after.slots i ≡ free none)
  pruned validator before after k done unused = (
    prune_to_endpoints-lookup (grpc_endpoints validator) before after k done ∙ rw unused refl,
    λ i at. prune_to_endpoints-empties (grpc_endpoints validator) before after k i done unused at,
  )

  apply_full-PrunedIn :
      (filter : String) (cfg : Config) (s : Shared) (loaded : Validator × List VMessNode)
      → PrunedIn s (apply_full parse_addr parse_uri c e r filter cfg s loaded)
  unfolding apply_full set_idle_timeout
  apply_full-PrunedIn filter cfg s (validator, nodes) =
      let before =
        set_idle_timeout (duration_from_seconds cfg.relay.grpc_pool_idle_timeout) s.pool in
      elim (Option-cases (prune_to_endpoints (grpc_endpoints validator) before)) [
        | inl waits ↦ rw (waits, apply_full) tt
        | inr (pool, done) ↦
            rw (done, apply_full) (λ k unused. pruned validator before pool k done unused)
      ]

  store_full-PrunedIn :
      (outside : Outside) (cfg : Config) (s : Shared) (loaded : Option (Validator × List VMessNode))
      → PrunedIn s (store_full parse_addr parse_uri c e r outside cfg s loaded)
  unfolding store_full
  store_full-PrunedIn outside cfg s none = tt
  store_full-PrunedIn outside cfg s (some loaded) =
      let effective = (preserve_running_relay cfg s.config.relay).0 in
      let filter = log_filter outside.rust_log effective in
      elim (Bool-cases (outside.takes_filter filter)) [
        | inl taken ↦ rw (taken, store_full) (apply_full-PrunedIn filter effective s loaded)
        | inr refused ↦ rw (refused, store_full) tt
      ]

  full_with-PrunedIn :
      (outside : Outside) (files : Files) (s : Shared) (read : Result LoadError Config)
      → PrunedIn s (full_with parse_addr parse_uri c e r outside files s read).0
  unfolding full_with
  full_with-PrunedIn outside files s (err x) = tt
  full_with-PrunedIn outside files s (ok cfg) = store_full-PrunedIn outside cfg s _

  -- A full reload that succeeds, where no other task uses the pool in between, leaves no connection for
  -- an endpoint that is not in the new routing table: the pool has no key for it, and the slot that its
  -- key led to before is empty.
  pub reload_full-IsPruned :
      (outside : Outside) (files : Files) (s t : Shared) (n : ℕ)
      → (reload_full parse_addr parse_uri c e r outside files s).0 ≡ some (reloaded n, t)
      → IsPruned s t
  unfolding reload_full
  reload_full-IsPruned outside files s t n h =
      subst (PrunedIn s) h
        (full_with-PrunedIn outside files s (load_config_with_retry outside.reads_config))
