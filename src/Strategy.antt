-- ===== src/Strategy.antt =====
-- crates/lan-client/src/strategy.rs: the summary that a member's machine keeps of what the gateway
-- allows it, and the check that it makes before a request is sent.
pub mod Laws
mod Tests
use aipowergateway.Prelude.{
  ℕ, Bool, true, false, ◌&&◌, Option, none, some, List, [], if◌then◌else◌, ltb, leb, unwrap_or,
  ◌>>=◌,
}
use aipowergateway.Prelude.Text.{Text}
use aipowergateway.Disk.{Disk, Backing, save_to, load_from}

pub record QuotaSnapshot : Type 0 where
  pub limit : ℕ
  pub used : ℕ

pub record StrategySummary : Type 0 where
  pub version : ℕ
  pub rules : List Text
  pub quota : QuotaSnapshot
  pub banned : Bool
  pub fetched_at : ℕ

pub data PreflightBlock : Type 0 where
  banned : PreflightBlock
  quota_exceeded : ℕ → PreflightBlock

unfoldable pub preflight_block : StrategySummary → Option PreflightBlock
preflight_block s =
    if s.banned
    then some banned
    else if ltb 0 s.quota.limit && leb s.quota.limit s.quota.used
    then some (quota_exceeded s.quota.limit)
    else none

pub record StrategyCache : Type 0 where
  pub inner : Option StrategySummary
  pub persist_path : Backing StrategySummary

unfoldable pub new : Backing StrategySummary → StrategyCache
new path = record { inner = load_from path; persist_path = path }

unfoldable pub get : StrategyCache → Option StrategySummary
get c = c.inner

unfoldable pub set : Disk StrategySummary → StrategySummary → StrategyCache → StrategyCache
set disk s c = record { inner = some s; persist_path = save_to disk s c.persist_path }

unfoldable pub rule_names : StrategyCache → List Text
unfolding get
rule_names c = elim (get c) [ none ↦ [] | some s ↦ s.rules ]

unfoldable pub preflight : StrategyCache → Option PreflightBlock
unfolding get preflight_block
preflight c = get c >>= preflight_block
