-- ===== src/Api/State.antt =====
-- The shared state, the responses, and the steps that begin each handler.
use aipowergateway.Prelude.{
  ℕ, Bool, false, not, Option, none, some, [], ◌∷◌, if◌then◌else◌, unwrap_or, or_else, ◌>>=◌,
  Result, ok, err,
}
use aipowergateway.Prelude.Text.{Text, text, starts_with, trim}
use aipowergateway.Prelude.Map.{Map}
use aipowergateway.Disk.{Disk}
use aipowergateway.Json.{
  Value, bool, obj, Fields, get, get_bool, get_u64, get_field, set_field, remove_field,
}
use aipowergateway.Auth.{AuthService, Session, verify}
use aipowergateway.Member.{MemberRegistry}
use aipowergateway.Member
use aipowergateway.Usage.{UsageService, MemberUsage, total}
use aipowergateway.Usage
use aipowergateway.Quota.{QuotaService, QuotaExceeded}
use aipowergateway.Quota
use aipowergateway.Policy.{LoadPolicy, PolicyCategory}
use aipowergateway.Rules.{RuleResolver}
use aipowergateway.Health.{ProviderState}
use aipowergateway.Backend.{Backend}
use aipowergateway.Registry.{RegistryInner}

-- `health` is the table attached to the registry.
pub record ApiState : Type 0 where
  pub auth : AuthService
  pub members : MemberRegistry
  pub usage : UsageService
  pub quota : QuotaService
  pub policy : LoadPolicy
  pub rules : RuleResolver
  pub backends : RegistryInner
  pub health : Option (Map ProviderState)
  pub sharing : Bool

-- What a handler calls outside of the state. `now` is the time at the check of the token, `seen` that
-- at the entry in the member list; `chat` answers the attempt of that number at a backend; `header_ok` tells
-- which texts can stand in a header.
pub record World : Type 1 where
  pub now : ℕ
  pub seen : ℕ
  pub lower : Text → Text
  pub usage_disk : Disk (Map MemberUsage)
  pub chat : ℕ → Backend → Value → Result Value Text
  pub header_ok : Text → Bool

-- The values of the two headers, if they are readable.
pub record Headers : Type 0 where
  pub authorization : Option Text
  pub x_api_key : Option Text

-- `completed` carries the headers X-APL-Rule and X-APL-Upstream, whether the answer is streamed, and
-- the answer of the upstream. `all_failed` is 500 without a rule set and 502 with one. `panicked` is the
-- `unwrap` of a response whose header cannot be built.
pub data Response : Type 0 where
  service_unavailable unauthorized panicked : Response
  bad_request internal_error : Text → Response
  quota_exceeded : ℕ → Response
  blocked_by_policy : PolicyCategory → Response
  all_failed : Text → Text → Response
  completed : Text → Text → Bool → Value → Response

-- `strip_prefix`
abbrev strip : Text → Text → Option Text
strip [] s = some s
strip (c ∷ p) [] = none
strip (c ∷ p) (d ∷ s) = if starts_with (d ∷ s) (c ∷ []) then strip p s else none

unfoldable pub bearer_token : Headers → Option Text
unfolding starts_with trim
bearer_token h =
    or_else (h.authorization >>= λ s. strip (text "Bearer ") s >>= λ t. some (trim t))
      (h.x_api_key >>= λ s. some (trim s))

unfoldable pub extract_openai_usage : Value → ℕ × ℕ
unfolding get_field
extract_openai_usage resp =
    let usage = unwrap_or (get (text "usage") resp) (obj Fields.end) in
    (
      unwrap_or (get_u64 (text "prompt_tokens") usage) 0,
      unwrap_or (get_u64 (text "completion_tokens") usage) 0,
    )

-- A streamed request is an object, since it has the key `stream`.
abbrev pub unstreamed : Value → Value
unstreamed (obj fs) =
    obj (remove_field (text "stream_options") (set_field (text "stream") (bool false) fs))
unstreamed v = v

unfoldable pub prepare_openai_upstream : Value → Bool × Value
unfolding get_field set_field remove_field
prepare_openai_upstream body =
    let stream = unwrap_or (get_bool (text "stream") body) false in
    (stream, if stream then unstreamed body else body)

-- The usage that counts against the quota.
abbrev pub used : Text → ApiState → ℕ
used id st = elim (Usage.get id st.usage) [ none ↦ 0 | some u ↦ total u ]

-- What `chat_completions` and `messages` do first: the switch, the token, the entry in the member
-- list, the quota.
unfoldable pub enter : World → Headers → ApiState → Result Session Response × ApiState
unfolding bearer_token verify Member.upsert Usage.get total Quota.check
enter w h st = if not st.sharing then (err service_unavailable, st) else elim (bearer_token h) [
  | none ↦ (err unauthorized, st)
  | some token ↦ elim (verify w.now token st.auth) [
    | none ↦ (err unauthorized, st)
    | some session ↦ (
      elim (Quota.check session.member_id (used session.member_id st) st.quota) [
        | err q ↦ err (quota_exceeded q.limit)
        | ok _ ↦ ok session
      ],
      record st {
        members = (Member.upsert w.seen session.machine_name session.display_name [] st.members).0;
      },
    )
  ]
]
