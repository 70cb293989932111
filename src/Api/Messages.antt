-- ===== src/Api/Messages.antt =====
-- The handler of the Anthropic protocol, `messages`.
pub mod Charged
use aipowergateway.Prelude.{
  Bool, false, ◌&&◌, Option, none, some, List, [], ◌++◌, if◌then◌else◌, unwrap_or, Result, ok, err,
}
use aipowergateway.Prelude.Text.{Text, text}
use aipowergateway.Json.{Value, get_str, get_bool, get_field}
use aipowergateway.Auth.{Session}
use aipowergateway.Policy.{extract_request_text}
use aipowergateway.Policy
use aipowergateway.Rules.{Resolution, resolve, estimate_tokens, first}
use aipowergateway.Backend.{provider_label}
use aipowergateway.Registry.{route}
use aipowergateway.Api.State.{
  ApiState, World, Headers, Response, bad_request, internal_error, blocked_by_policy, panicked,
  enter,
}
use aipowergateway.Api.Chat.{charge, rule_set_of}
use aipowergateway.Protocol.{Json}
use aipowergateway.Protocol.Anthropic.{anthropic_to_openai, openai_to_anthropic}
use aipowergateway.Protocol.Stream.{anthropic_sse_stream}

-- An answer carries the headers X-APL-Rule and X-APL-Upstream.
pub data Answer : Type 0 where
  refused : Response → Answer
  plain : Text → Text → Value → Answer
  streamed : Text → Text → Text → Answer

-- The first candidate of a rule set, or the model itself.
abbrev pub candidate : Text → Option Resolution → Text
candidate model none = model
candidate model (some r) = unwrap_or (first r) model

module _ (w : World) (j : Json) where
  abbrev pub upstream_request : Value → Value
  upstream_request body = anthropic_to_openai j body

  abbrev pub upstream_model : Value → Text
  upstream_model body = unwrap_or (get_str (text "model") (anthropic_to_openai j body)) []

  abbrev pub message_resolution : Value → ApiState → Option Resolution
  message_resolution body st =
      resolve (upstream_model body) (estimate_tokens (extract_request_text body)) st.rules

  abbrev pub delivered : Text → Text → Bool → Value → Answer
  delivered rule_set cand stream resp =
      if w.header_ok rule_set && w.header_ok cand
      then if stream
        then streamed rule_set cand (anthropic_sse_stream j resp)
        else plain rule_set cand (openai_to_anthropic j resp)
      else refused panicked

  -- From the rules on. The upstream is asked once, by the first candidate.
  unfoldable pub serve_message : Session → Value → ApiState → Answer × ApiState
  unfolding resolve estimate_tokens extract_request_text anthropic_to_openai get_field route charge
      provider_label first
  serve_message session body st =
      let stream = unwrap_or (get_bool (text "stream") body) false in
      let resolution = message_resolution body st in
      let rule_set = rule_set_of resolution in
      let cand = candidate (upstream_model body) resolution in
      elim (route st.health st.backends cand) [
        | none ↦ (
          refused
              (bad_request (text "model not available: " ++ (cand ++ text " (see /v1/models)"))),
          st,
        )
        | some (n, b) ↦ elim (w.chat 0 b (upstream_request body)) [
          | ok resp ↦ (
            delivered rule_set cand stream resp,
            record st {
              usage = charge w session.member_id (provider_label b) cand rule_set resp st.usage;
            },
          )
          | err e ↦ (refused (internal_error (text "backend error: " ++ e)), st)
        ]
      ]

  unfoldable pub messages : Headers → Value → ApiState → Answer × ApiState
  unfolding enter Policy.check extract_request_text serve_message
  messages h body st =
      let (entered, st1) = enter w h st in
      elim entered [
        | err response ↦ (refused response, st1)
        | ok session ↦
            let (verdict, policy) = Policy.check w.lower (extract_request_text body) st1.policy in
            let st2 : ApiState = record st1 { policy = policy } in
            elim verdict [
              | some cat ↦ (refused (blocked_by_policy cat), st2)
              | none ↦ serve_message session body st2
            ]
      ]
