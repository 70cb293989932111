-- ===== src/Api/Messages/Charged.antt =====
-- What a request of the Anthropic protocol is charged.
use aipowergateway.Prelude.{
  ◌≡◌, refl, inl, inr, Bool, [], ◌∷◌, Bool-cases, is_nil, Option-cases, Result-cases,
}
use aipowergateway.Prelude.Text.{Text}
use aipowergateway.Json.{Value}
use aipowergateway.Auth.{Session}
use aipowergateway.Registry.{route}
use aipowergateway.Api.State.{ApiState, World}
use aipowergateway.Api.Chat.{rule_set_of, try_candidates}
use aipowergateway.Api.Messages.{
  serve_message, candidate, message_resolution, upstream_model, upstream_request,
}
use aipowergateway.Protocol.{Json}

-- A request of the Anthropic protocol leaves the state that the OpenAI handler leaves when it asks
-- for the converted request with the first candidate alone, whether the answer is streamed or not.
pub serve_message-try_candidates :
    (w : World) (j : Json) (session : Session) (body : Value) (st : ApiState) (stream : Bool)
    (last : Text)
    → (serve_message w j session body st).1
      ≡ (try_candidates w session
          (upstream_model w j body)
          (rule_set_of (message_resolution w j body st))
          stream
          (upstream_request w j body)
          0
          (candidate (upstream_model w j body) (message_resolution w j body st) ∷ [])
          last
          st).1
unfolding serve_message try_candidates
serve_message-try_candidates w j session body st stream last =
    let cand = candidate (upstream_model w j body) (message_resolution w j body st) in
    let rules = rule_set_of (message_resolution w j body st) in
    elim (Option-cases (route st.health st.backends cand)) [
      | inl e ↦ elim (Bool-cases (is_nil rules)) [
        | inl k ↦ rw (e, serve_message, try_candidates, k) refl
        | inr k ↦ rw (e, serve_message, try_candidates, k) refl
      ]
      | inr ((n, b), e) ↦ elim (Result-cases (w.chat 0 b (upstream_request w j body))) [
        | inl (x, k) ↦ rw (e, serve_message, try_candidates, k) refl
        | inr (x, k) ↦ rw (e, serve_message, try_candidates, k) refl
      ]
    ]
