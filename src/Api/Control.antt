-- ===== src/Api/Control.antt =====
-- The handlers that members and the panel use beside the two protocols: `auth_token`, `auth_rename`,
-- `api_strategy_me`, and the actions of `api_control` that change the state above (not `autostart` and
-- `link-encrypt`, which write to the system and to another crate).
use aipowergateway.Prelude.{
  ℕ, Bool, true, false, not, ◌||◌, none, some, List, [], if◌then◌else◌, is_nil, unwrap_or, ok, err,
}
use aipowergateway.Prelude.Text.{Text, text}
use aipowergateway.Disk.{Disk}
use aipowergateway.Json.{Value, get_str, get_bool, get_field}
use aipowergateway.Auth.{
  BannedState, Session, issue, rotate, revoke_member, unban, verify, lookup_session,
  is_member_banned,
}
use aipowergateway.Member
use aipowergateway.Quota
use aipowergateway.Policy
use aipowergateway.Rules
use aipowergateway.Strategy.{StrategySummary}
use aipowergateway.Api.State.{ApiState, Headers, bearer_token, used}

abbrev pub text_field : Text → Value → Text
text_field k body = unwrap_or (get_str k body) []

-- The outcome of a handler: 503, 401 (the second for a ban), 400, or 200 with what it says.
pub data Outcome (A : Type 0) : Type 0 where
  paused unauthorized banned : Outcome A
  bad_request : Text → Outcome A
  done : A → Outcome A

module _ (now : ℕ) (ban_disk : Disk BannedState) (sessions_disk : Disk (List Session))
    (policy_disk : Disk Bool) where
  -- `seen` is the time of the entry in the member list, `ip` the address of the client.
  unfoldable pub auth_token : ℕ → List ℕ → Text → Value → ApiState → Outcome Session × ApiState
  unfolding get_field rotate issue Member.upsert
  auth_token seen bytes ip body st =
      let machine = text_field (text "machineName") body in
      let display = text_field (text "displayName") body in
      let force = unwrap_or (get_bool (text "force") body) false in
      if not st.sharing
      then (Outcome.paused, st)
      else if is_nil machine
      then (Outcome.bad_request (text "machineName required"), st)
      else (let (issued, auth) =
            if force
            then rotate ban_disk sessions_disk now bytes machine display ip st.auth
            else issue ban_disk sessions_disk now bytes machine display ip st.auth in
          elim issued [
            | err _ ↦ (Outcome.banned, record st { auth = auth })
            | ok session ↦ (
              Outcome.done session,
              record st {
                auth = auth;
                members = (Member.upsert seen machine display ip st.members).0;
              },
            )
          ])

  unfoldable pub auth_rename : Headers → Value → ApiState → Outcome Unit × ApiState
  unfolding bearer_token verify get_field Member.rename
  auth_rename h body st = elim (bearer_token h) [
    | none ↦ (Outcome.unauthorized, st)
    | some token ↦ elim (verify now token st.auth) [
      | none ↦ (Outcome.unauthorized, st)
      | some session ↦
          let name = text_field (text "displayName") body in
          if is_nil name then (Outcome.bad_request (text "displayName required"), st) else (
            Outcome.done tt,
            record st { members = (Member.rename session.machine_name name st.members).0 },
          )
    ]
  ]

  -- The answer, without its version; the client adds the time.
  unfoldable pub api_strategy_me : ℕ → ℕ → Headers → ApiState → Outcome StrategySummary
  unfolding bearer_token lookup_session Rules.rule_names Quota.get is_member_banned
  api_strategy_me version fetched_at h st = elim (bearer_token h) [
    | none ↦ Outcome.unauthorized
    | some token ↦ elim (lookup_session now token st.auth) [
      | none ↦ Outcome.unauthorized
      | some session ↦ Outcome.done (record {
        version = version;
        rules = Rules.rule_names st.rules;
        quota = record {
          limit = unwrap_or (Quota.get session.member_id st.quota) 0;
          used = used session.member_id st;
        };
        banned = is_member_banned session.member_id st.auth;
        fetched_at = fetched_at;
      })
    ]
  ]

  -- The actions of `api_control`, in its order.
  unfoldable pub control_revoke : Value → ApiState → Outcome Unit × ApiState
  unfolding get_field revoke_member Member.mark_offline
  control_revoke body st =
      let id = text_field (text "memberId") body in
      (
        Outcome.done tt,
        record st {
          auth = revoke_member ban_disk sessions_disk id (text_field (text "ip") body) st.auth;
          members = Member.mark_offline id st.members;
        },
      )

  unfoldable pub control_unban : Value → ApiState → Outcome Unit × ApiState
  unfolding get_field unban
  control_unban body st =
      let id = text_field (text "memberId") body in
      if is_nil id then (Outcome.bad_request (text "memberId required"), st) else (
        Outcome.done tt,
        record st { auth = unban ban_disk sessions_disk id (text_field (text "ip") body) st.auth },
      )

  unfoldable pub control_rename : Value → ApiState → Outcome Unit × ApiState
  unfolding get_field Member.rename
  control_rename body st =
      let id = text_field (text "memberId") body in
      let name = text_field (text "displayName") body in
      if is_nil id || is_nil name
      then (Outcome.bad_request (text "memberId and displayName required"), st)
      else (let (members, found) = Member.rename id name st.members in
          if found
          then (Outcome.done tt, record st { members = members })
          else (Outcome.bad_request (text "member not found"), record st { members = members }))

  unfoldable pub control_sharing : Bool → ApiState → Outcome Unit × ApiState
  control_sharing on st = (Outcome.done tt, record st { sharing = on })

  -- The two counters are part of the answer.
  unfoldable pub control_load_policy : Value → ApiState → Outcome (ℕ × ℕ) × ApiState
  unfolding get_field Policy.set_enabled Policy.hits
  control_load_policy body st =
      let policy =
        Policy.set_enabled policy_disk (unwrap_or (get_bool (text "enabled") body) true)
          st.policy in
      (Outcome.done (Policy.hits policy), record st { policy = policy })
