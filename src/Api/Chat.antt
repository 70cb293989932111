-- ===== src/Api/Chat.antt =====
-- The handler of the OpenAI protocol, `chat_completions`.
mod Served
mod Entry
pub mod Admission
pub mod Fallback
use aipowergateway.Prelude.{
  ℕ, ◌+◌, Bool, true, false, ◌&&◌, Option, none, some, List, [], ◌∷◌, ◌++◌, if◌then◌else◌, is_nil,
  take, unwrap_or, add_u64, Result, ok, err,
}
use aipowergateway.Prelude.Text.{Text, text}
use aipowergateway.Json.{Value, get_str, get_bool, get_field}
use aipowergateway.Auth.{Session}
use aipowergateway.Usage.{UsageService, record_call, record_rule}
use aipowergateway.Policy.{extract_request_text}
use aipowergateway.Policy
use aipowergateway.Rules.{Resolution, resolve, estimate_tokens, first}
use aipowergateway.Backend.{Backend, provider_label}
use aipowergateway.Registry.{route}
use aipowergateway.Api.State.{
  ApiState, World, Headers, Response, bad_request, internal_error, blocked_by_policy, all_failed,
  completed, panicked, extract_openai_usage, prepare_openai_upstream, enter,
}

-- The account of an answered request: the call, and its rule set if there is one.
unfoldable pub charge : World → Text → Text → Text → Text → Value → UsageService → UsageService
unfolding record_call record_rule extract_openai_usage
charge w member label model rule_set resp u =
    let (pt, ct) = extract_openai_usage resp in
    let called = record_call w.usage_disk member label model pt ct u in
    if is_nil rule_set
    then called
    else record_rule w.usage_disk member rule_set (add_u64 pt ct) called

-- `Response::builder()…unwrap()`
abbrev pub answer : World → Text → Text → Bool → Value → Response
answer w rule_set cand stream resp =
    if w.header_ok rule_set && w.header_ok cand
    then completed rule_set cand stream resp
    else panicked

module _ (w : World) (session : Session) (model rule_set : Text) (stream : Bool) (fwd : Value) where
  -- The loop over the candidates: the number of the attempt, the last error.
  unfoldable pub try_candidates : ℕ → List Text → Text → ApiState → Response × ApiState
  unfolding route charge provider_label
  try_candidates idx [] last_err st = (all_failed last_err rule_set, st)
  try_candidates idx (cand ∷ rest) last_err st = elim (route st.health st.backends cand) [
    | none ↦
        if is_nil rule_set
        then (bad_request (text "model not available: " ++ (model ++ text " (see /v1/models)")), st)
        else try_candidates (idx + 1) rest (text "model not available: " ++ cand) st
    | some (n, b) ↦ elim (w.chat idx b fwd) [
      | ok resp ↦ (
        answer w rule_set cand stream resp,
        record st {
          usage = charge w session.member_id (provider_label b) cand rule_set resp st.usage;
        },
      )
      | err e ↦ try_candidates (idx + 1) rest (text "backend error: " ++ e) st
    ]
  ]

-- The candidates of a model: those of its rule set, or the model itself.
abbrev pub candidates_for : Text → Option Resolution → List Text
candidates_for model none = model ∷ []
candidates_for model (some r) = if is_nil r.candidates then model ∷ [] else r.candidates

abbrev pub rule_set_of : Option Resolution → Text
rule_set_of none = []
rule_set_of (some r) = r.rule_set

abbrev pub requested_model : Value → Text
requested_model body = unwrap_or (get_str (text "model") body) []

-- The model of a request, resolved by the rules.
abbrev pub resolution_of : Value → ApiState → Option Resolution
resolution_of body st =
    resolve (requested_model body) (estimate_tokens (extract_request_text body)) st.rules

-- From the rules on: the request has been let through.
unfoldable pub serve : World → Session → Value → ApiState → Response × ApiState
unfolding resolve estimate_tokens extract_request_text prepare_openai_upstream try_candidates
    get_field
serve w session body st =
    let resolution = resolution_of body st in
    let candidates = candidates_for (requested_model body) resolution in
    let (stream, fwd) = prepare_openai_upstream body in
    try_candidates w session (requested_model body) (rule_set_of resolution) stream fwd 0
      (if stream then take 1 candidates else candidates) (text "no candidates") st

unfoldable pub chat_completions : World → Headers → Value → ApiState → Response × ApiState
unfolding enter Policy.check extract_request_text serve
chat_completions w h body st =
    let (entered, st1) = enter w h st in
    elim entered [
      | err response ↦ (response, st1)
      | ok session ↦
          let (verdict, policy) = Policy.check w.lower (extract_request_text body) st1.policy in
          let st2 : ApiState = record st1 { policy = policy } in
          elim verdict [ some cat ↦ (blocked_by_policy cat, st2) | none ↦ serve w session body st2 ]
    ]
