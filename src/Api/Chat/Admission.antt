-- ===== src/Api/Chat/Admission.antt =====
-- What must hold for a request to be answered, and what it is charged.
use aipowergateway.Prelude.{
  ℕ, ◌≡◌, sym, ◌∙◌, ap, inl, inr, Bool, true, Option, none, some, if◌then◌else◌, IsMember,
  Option-cases, ok, subst,
}
use aipowergateway.Prelude.Text.{Text}
use aipowergateway.Json.{Value}
use aipowergateway.Auth.{Session}
use aipowergateway.Policy.{LoadPolicy, extract_request_text, detect}
use aipowergateway.Policy
use aipowergateway.Policy.Count.{check_answer}
use aipowergateway.Backend.{Backend, provider_label}
use aipowergateway.Registry.{RegistryInner, route}
use aipowergateway.Health.{ProviderState}
use aipowergateway.Rules.{RuleResolver, resolve, estimate_tokens}
use aipowergateway.Prelude.Map.{Map}
use aipowergateway.Api.State.{
  ApiState, World, Headers, Response, completed, prepare_openai_upstream, enter,
}
use aipowergateway.Api.Chat.{
  charge, candidates_for, rule_set_of, requested_model, resolution_of, chat_completions,
}
use aipowergateway.Api.Chat.Served.{Result-cases, serve-completed}
use aipowergateway.Api.Chat.Entry.{is_completed, IsEntered, enter-frame, enter-ok, enter-refusal}

passes :
    (lower : Text → Text) (t : Text) (p q : LoadPolicy)
    → (Policy.check lower t p).0 ≡ none
    → p ≡ q
    → q.enabled ≡ true
    → detect lower t ≡ none
passes lower t p q clean same on =
    sym (
      check_answer lower t p
      ∙ ap (λ (x : Bool). if x then detect lower t else none)
          (ap (λ (x : LoadPolicy). x.enabled) same ∙ on))
    ∙ clean

module _ (w : World) (h : Headers) (st : ApiState) where
  module _ (body : Value) where
    abbrev rule_set : Text
    rule_set = rule_set_of (resolution_of body st)

    -- A request that is answered: what has been checked before, by whom it was answered, and the account.
    pub record IsAnswered (st' : ApiState) (upstream : Text) (resp : Value) : Type 0 where
      pub session : Session
      pub entered : IsEntered w h st session
      pub screened : st.policy.enabled ≡ true → detect w.lower (extract_request_text body) ≡ none
      pub candidate :
          IsMember upstream (candidates_for (requested_model body) (resolution_of body st))
      pub name : Text
      pub backend : Backend
      pub routed : route st.health st.backends upstream ≡ some (name, backend)
      pub attempt : ℕ
      pub answered : w.chat attempt backend (prepare_openai_upstream body).1 ≡ ok resp
      pub charged :
          st'.usage
          ≡ charge w session.member_id (provider_label backend) upstream rule_set resp st.usage

    -- A request is answered only while sharing is on, with a token that is known, not expired and of a
    -- member who is not banned, whose usage is within the quota, and with a text that the screening
    -- lets pass while it is on; by a candidate of the requested model that is routed to a backend; and the member is
    -- charged for it once, with the tokens that this backend reports.
    pub chat_completions-completed :
        (st' : ApiState) (r u : Text) (s : Bool) (v : Value)
        → chat_completions w h body st ≡ (completed r u s v, st')
        → IsAnswered st' u v
    unfolding chat_completions
    chat_completions-completed st' r u s v e =
        let (same_usage, same_policy, same_rules, same_backends, same_health) =
          enter-frame w h st in
        elim (Result-cases (enter w h st).0) [
          | inl (refusal, refused) ↦
              let there =
                ap (λ (x : Response × ApiState). is_completed x.0)
                  (rw (refused, chat_completions) at e) in
              let not_there = enter-refusal w h st refusal refused in cc
          | inr (session, entered) ↦
              elim (Option-cases
                (Policy.check w.lower (extract_request_text body) (enter w h st).1.policy).0) [
                  | inr (cat, flagged) ↦
                      let clash =
                        ap (λ (x : Response × ApiState). is_completed x.0)
                          (rw (entered, chat_completions, flagged) at e) in
                      cc
                  | inl clean ↦
                      let d =
                        serve-completed w session body _ st' r u s v
                          (rw (entered, chat_completions, clean) at e) in
                      record {
                        session = session;
                        entered = enter-ok w h st session entered;
                        screened =
                            passes w.lower (extract_request_text body) (enter w h st).1.policy
                              st.policy clean same_policy;
                        candidate =
                            subst
                              (λ (x : RuleResolver). IsMember u (
                                candidates_for (requested_model body) (
                                  resolve (requested_model body)
                                    (estimate_tokens (extract_request_text body)) x)))
                              same_rules d.candidate;
                        name = d.name;
                        backend = d.backend;
                        routed =
                            ap (λ (x : Option (Map ProviderState)). route x st.backends u)
                              (sym same_health)
                            ∙ ap (λ (x : RegistryInner). route (enter w h st).1.health x u)
                                (sym same_backends)
                            ∙ d.routed;
                        attempt = d.attempt;
                        answered = d.answered;
                        charged =
                            ap (λ (x : ApiState). x.usage) d.charged
                            ∙ ap
                                (λ (x : RuleResolver).
                                  charge w session.member_id (provider_label d.backend) u
                                    (rule_set_of (
                                      resolve (requested_model body)
                                        (estimate_tokens (extract_request_text body)) x))
                                    v (enter w h st).1.usage)
                                same_rules
                            ∙ ap
                                (charge w session.member_id (provider_label d.backend) u rule_set v)
                                same_usage;
                      }
                ]
        ]
