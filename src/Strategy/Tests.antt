-- ===== src/Strategy/Tests.antt =====
-- Runs of the member's check after the tests of the source, and its laws at such inputs.
use aipowergateway.Prelude.{◌≡◌, refl, true, false, none, some, [], ◌∷◌, if◌then◌else◌}
use aipowergateway.Prelude.Text.{Text, text, text_eq, starts_with, trim}
use aipowergateway.Prelude.Map.{lookup}
use aipowergateway.Prelude.Sort.{sort_by}
use aipowergateway.Prelude.TextSet.{has}
use aipowergateway.Disk.{working_disk, unsaved}
use aipowergateway.Auth.{Session, verify, lookup_session, is_member_banned}
use aipowergateway.Quota
use aipowergateway.Usage
use aipowergateway.Rules
use aipowergateway.Api.{ApiState, Headers, bearer_token, used}
use aipowergateway.Api.Control.{Outcome, api_strategy_me}
use aipowergateway.Strategy.{
  StrategySummary, banned, quota_exceeded, preflight_block, new, get, rule_names,
}
use aipowergateway.Strategy.Laws.{refusal, preflight_block-api_strategy_me}

abbrev session : Session
session = record {
  token = text "t";
  member_id = text "m1";
  machine_name = text "m1";
  display_name = text "m1";
  expires_at = 100;
  issued_at = 0;
}

abbrev state : ApiState
state = record {
  auth = record {
    sessions = (text "t", session) ∷ [];
    banned = [];
    banned_ips = [];
    ttl_secs = 0;
    ban_file = unsaved;
    sessions_file = unsaved;
  };
  members = record { inner = []; timeout_secs = 60; gateway_id = [] };
  usage = record { by_member = []; file = none };
  quota = record { quotas = (text "m1", 10) ∷ []; file = none };
  policy = record { enabled = true; file = none; mining_hits = 0; deepfake_hits = 0 };
  rules = record { inner = [] };
  backends = record { backends = []; prefixes = []; exact = [] };
  health = none;
  sharing = true;
}

abbrev headers : Headers
headers = record { authorization = some (text "Bearer t"); x_api_key = none }

abbrev summary : StrategySummary
summary = record {
  version = 7;
  rules = [];
  quota = record { limit = 10; used = 0 };
  banned = false;
  fetched_at = 5;
}

summary_run :
    (api_strategy_me 50 working_disk working_disk working_disk 7 5 headers state
      ≡ Outcome.done summary)
    × (preflight_block summary ≡ none)
    × (preflight_block (record summary { quota = record { limit = 10; used = 10 } })
        ≡ some (quota_exceeded 10))
    × (preflight_block (record summary { banned = true }) ≡ some banned)
    × (rule_names (new unsaved) ≡ [])
unfolding api_strategy_me bearer_token lookup_session lookup text_eq starts_with trim has
    is_member_banned preflight_block rule_names new get Quota.get Usage.get Rules.rule_names sort_by
summary_run = (refl, refl, refl, refl, refl)

preflight_block-api_strategy_me_example :
    (token : Text) × (x : Session) × (bearer_token headers ≡ some token)
    × (verify 50 token state.auth ≡ (if false then none else some x))
    × (preflight_block summary ≡ (
        if false
        then some banned
        else refusal (Quota.check x.member_id (used x.member_id state) state.quota)))
preflight_block-api_strategy_me_example =
    preflight_block-api_strategy_me 50 working_disk working_disk working_disk 7 5 headers state
      summary summary_run.0
