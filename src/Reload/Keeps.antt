-- ===== src/Reload/Keeps.antt =====
-- main.rs: the settings of the running listener survive a reload, and a missing file is waited for.
use tobira.Base.{
  ℕ, zero, suc, ◌+◌, ◌≤◌, ◌≡◌, inl, inr, refl, sym, ap, ◌∙◌, true, false, arith, eq_iff, Bool-cases,
  Result, ok, err,
}
use tobira.Config.{Config, RelayConfig, RelayNetwork, tcp, grpc}
use tobira.Reload.{
  same_network, listener_changed, preserve_running_relay, LoadError, file_missing, other_error,
  retry_loop, load_config_with_retry,
}

-- The two listen at one address, by one protocol and under one service name.
abbrev pub IsSameListener : RelayConfig → RelayConfig → Type 0
IsSameListener a b =
    (a.listen ≡ b.listen)
    × (a.port ≡ b.port)
    × (a.network ≡ b.network)
    × (a.service_name ≡ b.service_name)

-- What a reload may change: everything but the listener.
abbrev pub IsSameBut : Config → Config → Type 0
IsSameBut a b =
    (a.http ≡ b.http)
    × (a.subscription ≡ b.subscription)
    × (a.log_level ≡ b.log_level)
    × (a.relay.idle_timeout ≡ b.relay.idle_timeout)
    × (a.relay.grpc_pool_idle_timeout ≡ b.relay.grpc_pool_idle_timeout)

same_network_eq : (a b : RelayNetwork) → same_network a b ≡ true → a ≡ b
same_network_eq tcp tcp h = refl
same_network_eq tcp grpc h = cc
same_network_eq grpc tcp h = cc
same_network_eq grpc grpc h = refl

unchanged_listener : (a b : RelayConfig) → listener_changed a b ≡ false → IsSameListener a b
unfolding listener_changed
unchanged_listener a b h = (
  ground (arith, eq_iff a.listen b.listen),
  ground arith,
  same_network_eq a.network b.network (ground arith),
  ground (arith, eq_iff a.service_name b.service_name),
)

-- Whatever the new configuration says, the listener's settings in effect are those of the running one,
-- and everything else is as the new configuration has it.
pub preserve_running_relay-IsSameListener :
    (cfg : Config) (running : RelayConfig)
    → IsSameListener (preserve_running_relay cfg running).0.relay running
      × IsSameBut (preserve_running_relay cfg running).0 cfg
unfolding preserve_running_relay
preserve_running_relay-IsSameListener cfg running =
    elim (Bool-cases (listener_changed cfg.relay running)) [
      | inl changed ↦
          rw (changed, preserve_running_relay)
            ((refl, refl, refl, refl), (refl, refl, refl, refl, refl))
      | inr same ↦
          rw (same, preserve_running_relay)
            (unchanged_listener cfg.relay running same, (refl, refl, refl, refl, refl))
    ]

-- The attempts before the number `n` all found the file missing.
abbrev pub WereMissing : (ℕ → Result LoadError Config) → ℕ → ℕ → Type 0
WereMissing load from zero = Unit
WereMissing load from (suc n) = (load from ≡ err file_missing) × WereMissing load (from + 1) n

-- The attempt whose outcome counts: the first that does not find the file missing, or the last one.
abbrev pub Stops : (ℕ → Result LoadError Config) → ℕ → ℕ → Result LoadError Config → Type 0
Stops load from left answer =
    (n : ℕ) × (n ≤ left)
    × WereMissing load from n
    × (answer ≡ load (from + n))
    × (load (from + n) ≡ err file_missing → n ≡ left)

abbrev Lost : Type 0 → LoadError → LoadError → Type 0
Lost A d e = ◌≡◌ {A = Result LoadError A} (err d) (err e)

ok-ne : {cfg : Config} → ok cfg ≡ err file_missing → ⊥
ok-ne e = absurd (ground arith)

other-ne : {A : Type 0} → Lost A other_error file_missing → ⊥
other-ne e = absurd (ground arith)

retry_loop-Stops :
    (load : ℕ → Result LoadError Config) (from left : ℕ)
    → (r : Result LoadError Config) → load from ≡ r
    → Stops load from left (retry_loop load from left)
unfolding retry_loop
retry_loop-Stops load from zero r e = (0, omega arith, tt, ap load (omega arith), λ missing. refl)
retry_loop-Stops load from (suc left) (ok cfg) e =
    let here : from + 0 ≡ from = omega arith in
    (
      0,
      omega arith,
      tt,
      rw here (rw (e, retry_loop) refl),
      λ missing. absurd (ok-ne (sym e ∙ ap load (sym here) ∙ missing)),
    )
retry_loop-Stops load from (suc left) (err other_error) e =
    let here : from + 0 ≡ from = omega arith in
    (
      0,
      omega arith,
      tt,
      rw here (rw (e, retry_loop) refl),
      λ missing. absurd (other-ne (sym e ∙ ap load (sym here) ∙ missing)),
    )
retry_loop-Stops load from (suc left) (err file_missing) e =
    let (n, few, missing, answer, last) =
      retry_loop-Stops load (from + 1) left (load (from + 1)) refl in
    let next : (from + 1) + n ≡ from + suc n = omega arith in
    (
      suc n,
      omega arith,
      (e, missing),
      rw (e, retry_loop) (answer ∙ ap load next),
      λ gone. ap suc (last (ap load next ∙ gone)),
    )

-- A reload answers what the first attempt brings that does not find the file missing, if that is one of
-- six attempts, and otherwise what the sixth brings.
pub load_config_with_retry-Stops :
    (load : ℕ → Result LoadError Config) → Stops load 1 5 (load_config_with_retry load)
unfolding load_config_with_retry
load_config_with_retry-Stops load = retry_loop-Stops load 1 5 (load 1) refl
