-- ===== src/Health/Laws.antt =====
-- The state machine against the history of probes: the level says how many of the latest probes
-- failed in a row.
use aipowergateway.Prelude.{
  ℕ, ◌+◌, ◌≡◌, refl, ◌≤◌, ◌<◌, ◌↔◌, Bool, Option, none, some, List, [], ◌∷◌, arith, if◌then◌else◌,
  length, u32_mod, unwrap_or, Bool-cases, inl, inr,
}
use aipowergateway.Prelude.Text.{Text, text_eq, text_eq_refl}
use aipowergateway.Prelude.Map.{lookup, insert, lookup-insert, lookup-remove}
use aipowergateway.Health.{
  healthy, degraded, removed, ProviderState, PollConfig, HealthMonitor, observe, level_for,
  untested, config, set_config, forget, finish_probe,
}

-- The outcome of a probe.
pub record Probe : Type 0 where
  pub ok : Bool
  pub latency_ms : Option ℕ
  pub error : Option Text

-- The number of failures since the last success; the latest probe stands first.
abbrev pub failing_run : List Probe → ℕ
failing_run [] = 0
failing_run (p ∷ older) = if p.ok then 0 else failing_run older + 1

failing_run-le : (history : List Probe) → failing_run history ≤ length history
failing_run-le [] = omega arith
failing_run-le (p ∷ older) = ground (arith, failing_run-le older)

module _ (fail_threshold remove_threshold : ℕ) where
  -- The state of a backend after its probes.
  unfoldable pub after : List Probe → ProviderState
  unfolding observe
  after [] = untested
  after (p ∷ older) =
      observe p.ok p.latency_ms p.error fail_threshold remove_threshold (after older)

  failures-after :
      (history : List Probe)
      → length history < u32_mod
      → (after history).failures ≡ failing_run history
  unfolding after
  failures-after [] few = refl
  failures-after (p ∷ older) few = elim (Bool-cases p.ok) [
    | inl passed ↦ rw (passed, after)
    | inr failed ↦
        rw (failed, after) (omega (arith, failures-after older (omega arith), failing_run-le older))
  ]

  level_lem :
      (history : List Probe)
      → 0 < fail_threshold
      → 0 < remove_threshold
      → length history < u32_mod
      → (after history).level ≡ level_for (failing_run history) fail_threshold remove_threshold
  unfolding after
  level_lem [] f r few = ground arith
  level_lem (p ∷ older) f r few = elim (Bool-cases p.ok) [
    | inl passed ↦ rw (passed, after) (ground arith)
    | inr failed ↦
        rw (failed, after, failures-after older (omega arith))
          (ground (arith, failing_run-le older))
  ]

  -- With thresholds above 0, over fewer than 2^32 probes, the number of failures since the last
  -- success decides the level: removed exactly from the second threshold on, degraded exactly from
  -- the first on below the second, healthy exactly below both. One success makes it healthy again.
  pub level-after :
      (history : List Probe)
      → 0 < fail_threshold
      → 0 < remove_threshold
      → length history < u32_mod
      → (((after history).level ≡ removed) ↔ (remove_threshold ≤ failing_run history))
        × (((after history).level ≡ degraded)
            ↔ ((fail_threshold ≤ failing_run history) × (failing_run history < remove_threshold)))
        × (((after history).level ≡ healthy)
            ↔ ((failing_run history < fail_threshold) × (failing_run history < remove_threshold)))
  level-after history f r few =
      let e = level_lem history f r few in
      (
        (λ h. ground arith, λ h. ground arith),
        (λ h. (ground arith, ground arith), λ (h, k). ground arith),
        (λ h. (ground arith, ground arith), λ (h, k). ground arith),
      )

-- A probe that ends after polling of its backend was switched off changes nothing; else it moves
-- that backend's state by its outcome, and no other's.
lookup-finish_probe :
    (id j : Text) (is_executor ok : Bool) (cfg : PollConfig) (latency : Option ℕ)
    (error : Option Text) (h : HealthMonitor)
    → lookup j (finish_probe id is_executor cfg ok latency error h).states ≡ (
        if (config id is_executor h).enabled
        then (if text_eq id j
            then some (
                observe ok latency error cfg.fail_threshold cfg.remove_threshold
                  (unwrap_or (lookup id h.states) untested))
            else lookup j h.states)
        else lookup j h.states)
unfolding finish_probe
lookup-finish_probe id j is_executor ok cfg latency error h =
    elim (Bool-cases (config id is_executor h).enabled) [
      | inl on ↦ rw (on, finish_probe) (lookup-insert id j _ h.states)
      | inr off ↦ rw (off, finish_probe)
    ]

-- A configuration that is set holds for its backend until it is forgotten; then the backend is
-- polled again only if it is an executor, and no state of it is left. Other backends keep theirs.
config-set_config :
    (id j : Text) (is_executor : Bool) (cfg : PollConfig) (h : HealthMonitor)
    → (config j is_executor (set_config id cfg h)
        ≡ (if text_eq id j then cfg else config j is_executor h))
      × ((config id is_executor (forget id (set_config id cfg h))).enabled ≡ is_executor)
      × (lookup j (forget id h).states ≡ (if text_eq id j then none else lookup j h.states))
unfolding config set_config forget
config-set_config id j is_executor cfg h = (
  ground (arith, lookup-insert id j cfg h.configs),
  ground (arith, lookup-remove id id (insert id cfg h.configs), text_eq_refl id),
  lookup-remove id j h.states,
)
