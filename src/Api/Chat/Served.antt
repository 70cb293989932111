-- ===== src/Api/Chat/Served.antt =====
-- What an answer of the loop over the candidates tells of the upstream.
use aipowergateway.Prelude.{
  ℕ, ◌+◌, ◌≡◌, refl, sym, ◌∙◌, ap, ◌⊎◌, inl, inr, Bool, true, false, ◌&&◌, some, List, [], ◌∷◌,
  if◌then◌else◌, is_nil, take, IsMember, Bool-cases, Option-cases, Result, ok, err,
}
use aipowergateway.Prelude.Text.{Text, text}
use aipowergateway.Json.{Value}
use aipowergateway.Auth.{Session}
use aipowergateway.Backend.{Backend, provider_label}
use aipowergateway.Registry.{route}
use aipowergateway.Api.State.{
  ApiState, World, Response, all_failed, completed, prepare_openai_upstream,
}
use aipowergateway.Api.Chat.{
  charge, answer, try_candidates, candidates_for, rule_set_of, requested_model, resolution_of,
  serve,
}

pub Result-cases :
    {A E : Type 0} (r : Result A E) → ((e : E) × (r ≡ err e)) ⊎ ((a : A) × (r ≡ ok a))
Result-cases (err e) = inl (e, refl)
Result-cases (ok a) = inr (a, refl)

-- An upstream has answered: with its backend and the number of the attempt, and the account.
pub record IsServed (w : World) (session : Session) (rule_set : Text) (fwd : Value)
    (cands : List Text) (st st' : ApiState) (upstream : Text) (resp : Value) : Type 0 where
  pub attempt : ℕ
  pub name : Text
  pub backend : Backend
  pub candidate : IsMember upstream cands
  pub routed : route st.health st.backends upstream ≡ some (name, backend)
  pub answered : w.chat attempt backend fwd ≡ ok resp
  pub charged : st' ≡ record st {
    usage = charge w session.member_id (provider_label backend) upstream rule_set resp st.usage;
  }

module _ (w : World) (session : Session) (model rule_set : Text) (stream : Bool) (fwd : Value) where
  answer-completed :
      (cand r u : Text) (s : Bool) (resp v : Value)
      → answer w rule_set cand stream resp ≡ completed r u s v
      → (cand ≡ u) × (resp ≡ v)
  answer-completed cand r u s resp v h =
      elim (Bool-cases (w.header_ok rule_set && w.header_ok cand)) [
        | inl fine ↦ let e = rw (fine, answer) at h in (cc, cc)
        | inr odd ↦ let e = rw (odd, answer) at h in cc
      ]

  try_candidates-completed :
      (idx : ℕ) (cands : List Text) (last_err : Text) (st st' : ApiState) (r u : Text) (s : Bool)
      (v : Value)
      → try_candidates w session model rule_set stream fwd idx cands last_err st
        ≡ (completed r u s v, st')
      → IsServed w session rule_set fwd cands st st' u v
  unfolding try_candidates
  try_candidates-completed idx [] last_err st st' r u s v h =
      let e : all_failed last_err rule_set ≡ completed r u s v = ap (λ x. x.0) h in cc
  try_candidates-completed idx (cand ∷ rest) last_err st st' r u s v h =
      elim (Option-cases (route st.health st.backends cand)) [
        | inl unrouted ↦ elim (Bool-cases (is_nil rule_set)) [
          | inl no_rule ↦
              let e =
                ap (λ (x : Response × ApiState). x.0)
                  (rw (unrouted, try_candidates, no_rule) at h) in
              cc
          | inr rule ↦ later (
              try_candidates-completed (idx + 1) rest _ st st' r u s v
                (rw (unrouted, try_candidates, rule) at h))
        ]
        | inr ((n, b), routed) ↦ elim (Result-cases (w.chat idx b fwd)) [
          | inl (e, failed) ↦ later (
              try_candidates-completed (idx + 1) rest _ st st' r u s v
                (rw (routed, try_candidates, failed) at h))
          | inr (resp, answered) ↦
              (let e = rw (routed, try_candidates, answered) at h in
                let (same, same_resp) =
                  answer-completed cand r u s resp v (ap (λ (x : Response × ApiState). x.0) e) in
                record {
                  attempt = idx;
                  name = n;
                  backend = b;
                  candidate = inl (sym same);
                  routed = ap (route st.health st.backends) (sym same) ∙ routed;
                  answered = answered ∙ ap ok same_resp;
                  charged =
                      sym (ap (λ (x : Response × ApiState). x.1) e) ∙ rw (same, same_resp) refl;
                })
        ]
      ]
    where
      later :
          {a b : ApiState} {t : Text} {x : Value}
          → IsServed w session rule_set fwd rest a b t x
          → IsServed w session rule_set fwd (cand ∷ rest) a b t x
      later d = record {
        attempt = d.attempt;
        name = d.name;
        backend = d.backend;
        candidate = inr d.candidate;
        routed = d.routed;
        answered = d.answered;
        charged = d.charged;
      }

IsMember-take1 :
    (b : Bool) (u : Text) (cands : List Text)
    → IsMember u (if b then take 1 cands else cands)
    → IsMember u cands
IsMember-take1 false u cands m = m
IsMember-take1 true u [] m = m
IsMember-take1 true u (c ∷ cands) (inl here) = inl here
IsMember-take1 true u (c ∷ cands) (inr later) = absurd later

pub serve-completed :
    (w : World) (session : Session) (body : Value) (st st' : ApiState) (r u : Text) (s : Bool)
    (v : Value)
    → serve w session body st ≡ (completed r u s v, st')
    → IsServed w session
        (rule_set_of (resolution_of body st))
        (prepare_openai_upstream body).1
        (candidates_for (requested_model body) (resolution_of body st))
        st
        st'
        u
        v
unfolding serve
serve-completed w session body st st' r u s v e =
    let (stream, fwd) = prepare_openai_upstream body in
    let cands = candidates_for (requested_model body) (resolution_of body st) in
    let d =
      try_candidates-completed w session (requested_model body)
        (rule_set_of (resolution_of body st)) stream fwd 0 (if stream then take 1 cands else cands)
        (text "no candidates") st st' r u s v e in
    record {
      attempt = d.attempt;
      name = d.name;
      backend = d.backend;
      candidate = IsMember-take1 stream u cands d.candidate;
      routed = d.routed;
      answered = d.answered;
      charged = d.charged;
    }
