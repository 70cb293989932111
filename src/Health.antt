-- ===== src/Health.antt =====
-- crates/lan-share/src/health.rs: the health of each upstream backend as a state machine over the
-- outcomes of its probes, and the polling configuration.
pub mod Laws
mod Tests
use aipowergateway.Prelude.{
  ℕ, ◌+◌, Bool, true, false, Option, none, some, List, [], ◌∷◌, leb, if◌then◌else◌, unwrap_or,
  add_u32,
}
use aipowergateway.Prelude.Text.{Text, text}
use aipowergateway.Prelude.Map.{Map, lookup, insert, remove}

pub data HealthLevel : Type 0 where
  healthy degraded removed : HealthLevel

unfoldable pub level_as_str : HealthLevel → Text
level_as_str healthy = text "ok"
level_as_str degraded = text "degraded"
level_as_str removed = text "removed"

-- `failures` is a `u32`.
pub record ProviderState : Type 0 where
  pub level : HealthLevel
  pub failures : ℕ
  pub latency_ms : Option ℕ
  pub last_error : Option Text

-- The level for a number of failures in a row.
abbrev pub level_for : ℕ → ℕ → ℕ → HealthLevel
level_for failures fail_threshold remove_threshold =
    if leb remove_threshold failures
    then removed
    else if leb fail_threshold failures
    then degraded
    else healthy

-- `observe`: `ok`, the latency, the error and the two thresholds.
unfoldable pub observe : Bool → Option ℕ → Option Text → ℕ → ℕ → ProviderState → ProviderState
observe true latency error fail_threshold remove_threshold st = record {
  level = healthy;
  failures = 0;
  latency_ms = latency;
  last_error = none;
}
observe false latency error fail_threshold remove_threshold st =
    let failures = add_u32 st.failures 1 in
    record st {
      level = level_for failures fail_threshold remove_threshold;
      failures = failures;
      last_error = error;
    }

-- The entry that the loop puts in for a backend that it has not seen.
abbrev pub untested : ProviderState
untested = record { level = healthy; failures = 0; latency_ms = none; last_error = none }

pub record PollConfig : Type 0 where
  pub enabled : Bool
  pub poll_interval_secs : ℕ
  pub fail_threshold : ℕ
  pub remove_threshold : ℕ

-- `PollConfig::default()`
abbrev pub default_config : PollConfig
default_config = record {
  enabled = true;
  poll_interval_secs = 15;
  fail_threshold = 3;
  remove_threshold = 10;
}

pub record HealthMonitor : Type 0 where
  pub states : Map ProviderState
  pub configs : Map PollConfig

unfoldable pub new : HealthMonitor
new = record { states = []; configs = [] }

unfoldable pub config : Text → Bool → HealthMonitor → PollConfig
config id is_executor h =
    unwrap_or (lookup id h.configs)
      (if is_executor then default_config else record default_config { enabled = false })

unfoldable pub set_config : Text → PollConfig → HealthMonitor → HealthMonitor
set_config id cfg h = record h { configs = insert id cfg h.configs }

-- `remove`
unfoldable pub forget : Text → HealthMonitor → HealthMonitor
forget id h = record { states = remove id h.states; configs = remove id h.configs }

-- The end of a probe in the loop: the configuration is read again, since it may have changed during
-- the probe, and the outcome is dropped if polling was switched off meanwhile. The thresholds are
-- those read before the probe.
unfoldable pub finish_probe :
    Text → Bool → PollConfig → Bool → Option ℕ → Option Text → HealthMonitor → HealthMonitor
unfolding config observe
finish_probe id is_executor cfg ok latency error h =
    if (config id is_executor h).enabled
    then (record h {
      states =
          insert id
            (observe ok latency error cfg.fail_threshold cfg.remove_threshold
              (unwrap_or (lookup id h.states) untested))
            h.states;
    })
    else h
