-- ===== src/Health/Tests.antt =====
-- Runs of the state machine after the tests of the source, and its laws at such inputs.
use aipowergateway.Prelude.{◌≡◌, ◌↔◌, ◌≤◌, ◌<◌, refl, true, false, none, some, List, [], ◌∷◌, arith}
use aipowergateway.Prelude.Text.{text}
use aipowergateway.Prelude.Map.{lookup}
use aipowergateway.Health.{healthy, degraded, removed, new, config, default_config, level_as_str}
use aipowergateway.Health.Laws.{Probe, after, failing_run, level-after}

abbrev boom : Probe
boom = record { ok = false; latency_ms = none; error = some (text "boom") }

abbrev pass : Probe
pass = record { ok = true; latency_ms = some 42; error = none }

-- Ten failures.
abbrev ten : List Probe
ten = boom ∷ boom ∷ boom ∷ boom ∷ boom ∷ boom ∷ boom ∷ boom ∷ boom ∷ boom ∷ []

state_machine_degrade_remove_recover :
    ((after 3 10 (boom ∷ boom ∷ [])).level ≡ healthy)
    × ((after 3 10 (boom ∷ boom ∷ boom ∷ [])).level ≡ degraded)
    × ((after 3 10 ten).level ≡ removed)
    × ((after 3 10 ten).failures ≡ 10)
    × (after 3 10 (pass ∷ ten)
        ≡ record { level = healthy; failures = 0; latency_ms = some 42; last_error = none })
    × ((after 3 10 (boom ∷ boom ∷ pass ∷ boom ∷ boom ∷ [])).level ≡ healthy)
unfolding after
state_machine_degrade_remove_recover = (refl, refl, refl, refl, refl, refl)

config_defaults_by_executor :
    (config (text "pair-home-1") true new ≡ default_config)
    × ((config (text "ollama") false new).enabled ≡ false)
    × (level_as_str degraded ≡ text "degraded")
unfolding config new lookup level_as_str
config_defaults_by_executor = (refl, refl, refl)

level-after_example :
    (((after 3 10 ten).level ≡ removed) ↔ (10 ≤ failing_run ten))
    × (((after 3 10 ten).level ≡ degraded) ↔ ((3 ≤ failing_run ten) × (failing_run ten < 10)))
    × (((after 3 10 ten).level ≡ healthy) ↔ ((failing_run ten < 3) × (failing_run ten < 10)))
level-after_example = level-after 3 10 ten (omega arith) (omega arith) (omega arith)
