-- ===== src/Api/Chat/Fallback.antt =====
-- The order in which the candidates of a rule set are tried.
use aipowergateway.Prelude.{
  take, ◌&&◌, if◌then◌else◌, ℕ, ◌+◌, ◌≡◌, refl, ◌∙◌, ap, ◌⊎◌, inl, inr, Bool, false, none, some,
  List, [], ◌∷◌, ◌++◌, is_nil, Option-cases, Result, ok, err,
}
use aipowergateway.Prelude.Text.{Text, text}
use aipowergateway.Json.{Value}
use aipowergateway.Auth.{Session}
use aipowergateway.Backend.{Backend, provider_label}
use aipowergateway.Registry.{route}
use aipowergateway.Api.State.{
  ApiState, World, Response, all_failed, completed, panicked, prepare_openai_upstream,
}
use aipowergateway.Api.Chat.{
  answer, charge, try_candidates, candidates_for, requested_model, resolution_of, rule_set_of,
  serve,
}

module _ (w : World) (fwd : Value) (st : ApiState) where
  -- The candidate has no backend, or its backend fails at that attempt.
  pub data Fails (idx : ℕ) (cand : Text) : Type 0 where
    unrouted : route st.health st.backends cand ≡ none → Fails idx cand
    failed :
        (n : Text) (b : Backend) (e : Text)
        → route st.health st.backends cand ≡ some (n, b)
        → w.chat idx b fwd ≡ err e
        → Fails idx cand

  -- The first candidate that does not fail is the one, and that is its answer; all before it fail.
  pub data FallsTo (upstream : Text) (resp : Value) : ℕ → List Text → Type 0 where
    here :
        (idx : ℕ) (rest : List Text) (n : Text) (b : Backend)
        → route st.health st.backends upstream ≡ some (n, b)
        → w.chat idx b fwd ≡ ok resp
        → FallsTo upstream resp idx (upstream ∷ rest)
    next :
        (idx : ℕ) (cand : Text) (rest : List Text)
        → Fails idx cand
        → FallsTo upstream resp (idx + 1) rest
        → FallsTo upstream resp idx (cand ∷ rest)

  abbrev pub AllFail : ℕ → List Text → Type 0
  AllFail idx [] = Unit
  AllFail idx (cand ∷ rest) = Fails idx cand × AllFail (idx + 1) rest

  module _ (session : Session) (model rule_set : Text) (stream : Bool)
      (named : is_nil rule_set ≡ false) where
    abbrev tried : ℕ → List Text → Text → Response
    tried idx cands last_err =
        (try_candidates w session model rule_set stream fwd idx cands last_err st).0

    abbrev step : ℕ → List Text → Text → Response × ApiState
    step idx cands last_err =
        try_candidates w session model rule_set stream fwd idx cands last_err st

    skip_unrouted :
        (idx : ℕ) (cand : Text) (rest : List Text) (last_err : Text)
        → route st.health st.backends cand ≡ none
        → step idx (cand ∷ rest) last_err
          ≡ step (idx + 1) rest (text "model not available: " ++ cand)
    unfolding try_candidates
    skip_unrouted idx cand rest last_err u = rw (u, try_candidates, named) refl

    skip_failed :
        (idx : ℕ) (cand : Text) (rest : List Text) (last_err n : Text) (b : Backend) (e : Text)
        → route st.health st.backends cand ≡ some (n, b)
        → w.chat idx b fwd ≡ err e
        → step idx (cand ∷ rest) last_err ≡ step (idx + 1) rest (text "backend error: " ++ e)
    unfolding try_candidates
    skip_failed idx cand rest last_err n b e r f = rw (r, try_candidates, f) refl

    step-answer :
        (idx : ℕ) (rest : List Text) (last_err upstream : Text) (resp : Value) (n : Text)
        (b : Backend)
        → route st.health st.backends upstream ≡ some (n, b)
        → w.chat idx b fwd ≡ ok resp
        → step idx (upstream ∷ rest) last_err ≡ (
          answer w rule_set upstream stream resp,
          record st {
            usage = charge w session.member_id (provider_label b) upstream rule_set resp st.usage;
          },
        )
    unfolding try_candidates
    step-answer idx rest last_err upstream resp n b r k = rw (r, try_candidates, k) refl

    -- A failed candidate is passed over.
    tried-Fails :
        (idx : ℕ) (cand : Text) (rest : List Text) (last_err : Text)
        → Fails idx cand
        → (e : Text) × (tried idx (cand ∷ rest) last_err ≡ tried (idx + 1) rest e)
    unfolding try_candidates
    tried-Fails idx cand rest last_err (Fails.unrouted u) = (
      text "model not available: " ++ cand,
      ap (λ x. x.0) (skip_unrouted idx cand rest last_err u),
    )
    tried-Fails idx cand rest last_err (Fails.failed n b e r f) =
        (text "backend error: " ++ e, ap (λ x. x.0) (skip_failed idx cand rest last_err n b e r f))

    tried-answer :
        (idx : ℕ) (rest : List Text) (last_err upstream : Text) (resp : Value) (n : Text)
        (b : Backend)
        → route st.health st.backends upstream ≡ some (n, b)
        → w.chat idx b fwd ≡ ok resp
        → tried idx (upstream ∷ rest) last_err ≡ answer w rule_set upstream stream resp
    unfolding try_candidates
    tried-answer idx rest last_err upstream resp n b r k =
        ap (λ x. x.0) (step-answer idx rest last_err upstream resp n b r k)

    try_candidates-FallsTo :
        (upstream : Text) (resp : Value) (idx : ℕ) (cands : List Text) (last_err : Text)
        → FallsTo upstream resp idx cands
        → tried idx cands last_err ≡ answer w rule_set upstream stream resp
    unfolding try_candidates
    try_candidates-FallsTo upstream resp idx cands last_err (FallsTo.here _ rest n b r k) =
        tried-answer idx rest last_err upstream resp n b r k
    try_candidates-FallsTo upstream resp idx cands last_err (FallsTo.next _ cand rest f later) =
        let (e, step) = tried-Fails idx cand rest last_err f in
        step ∙ try_candidates-FallsTo upstream resp (idx + 1) rest e later

    try_candidates-AllFail :
        (idx : ℕ) (cands : List Text) (last_err : Text)
        → AllFail idx cands
        → (e : Text) × (tried idx cands last_err ≡ all_failed e rule_set)
    unfolding try_candidates
    try_candidates-AllFail idx [] last_err h = (last_err, refl)
    try_candidates-AllFail idx (cand ∷ rest) last_err (f, fs) =
        let (e, step) = tried-Fails idx cand rest last_err f in
        let (d, end) = try_candidates-AllFail (idx + 1) rest e fs in (d, step ∙ end)

    candidates-cases :
        (idx : ℕ) (cands : List Text)
        → ((u : Text) × (v : Value) × FallsTo u v idx cands) ⊎ AllFail idx cands
    candidates-cases idx [] = inr tt
    candidates-cases idx (cand ∷ rest) =
        let rest_cases = candidates-cases (idx + 1) rest in
        elim (Option-cases (route st.health st.backends cand)) [
          | inl u ↦ later rest_cases (Fails.unrouted u)
          | inr ((n, b), r) ↦ go rest_cases n b r (w.chat idx b fwd) refl
        ]
      where
        Rest : Type 0
        Rest = ((u : Text) × (v : Value) × FallsTo u v (idx + 1) rest) ⊎ AllFail (idx + 1) rest

        Whole : Type 0
        Whole =
            ((u : Text) × (v : Value) × FallsTo u v idx (cand ∷ rest)) ⊎ AllFail idx (cand ∷ rest)

        later : Rest → Fails idx cand → Whole
        later (inl (u, v, d)) f = inl (u, v, FallsTo.next idx cand rest f d)
        later (inr fs) f = inr (f, fs)

        go :
            Rest
            → (n : Text) (b : Backend) → route st.health st.backends cand ≡ some (n, b)
            → (x : Result Value Text) → w.chat idx b fwd ≡ x
            → Whole
        go cases n b r (ok v) k = inl (cand, v, FallsTo.here idx rest n b r k)
        go cases n b r (err e) k = later cases (Fails.failed n b e r k)

    -- For a model that names a rule set, either some candidate is routed to a backend that answers, and
    -- the response is the answer of the first of them; or every candidate fails, and the response is the
    -- failure of the whole, with that rule set.
    try_candidates-cases :
        (idx : ℕ) (cands : List Text) (last_err : Text)
        → ((u : Text) × (v : Value) × FallsTo u v idx cands
            × (tried idx cands last_err ≡ answer w rule_set u stream v))
          ⊎ (AllFail idx cands × ((e : Text) × (tried idx cands last_err ≡ all_failed e rule_set)))
    try_candidates-cases idx cands last_err = elim (candidates-cases idx cands) [
      | inl (u, v, d) ↦ inl (u, v, d, try_candidates-FallsTo u v idx cands last_err d)
      | inr fails ↦ inr (fails, try_candidates-AllFail idx cands last_err fails)
    ]

-- The candidates that a request may use: of a streamed one only the first.
abbrev pub offered : Value → ApiState → List Text
offered body st =
    let candidates = candidates_for (requested_model body) (resolution_of body st) in
    if (prepare_openai_upstream body).0 then take 1 candidates else candidates

-- A request that a rule set matches gets the answer of the first of its candidates, for a streamed one
-- of the first candidate alone, that is routed and whose backend does not fail, whatever the errors of
-- those before it are: an error that is not worth a retry moves on as well. The response names the
-- rule set and that candidate; it is a panic if a name cannot be the value of a header. If every
-- candidate fails, the response is the failure of the whole, with that rule set.
pub serve-FallsTo :
    (w : World) (session : Session) (body : Value) (st : ApiState)
    → is_nil (rule_set_of (resolution_of body st)) ≡ false
    → (let fwd = (prepare_openai_upstream body).1 in
        let rule_set = rule_set_of (resolution_of body st) in
        ((upstream : Text) × (resp : Value) × FallsTo w fwd st upstream resp 0 (offered body st)
          × ((serve w session body st).0 ≡ (
              if w.header_ok rule_set && w.header_ok upstream
              then completed rule_set upstream (prepare_openai_upstream body).0 resp
              else panicked)))
        ⊎ (AllFail w fwd st 0 (offered body st)
            × ((e : Text) × ((serve w session body st).0 ≡ all_failed e rule_set))))
unfolding serve
serve-FallsTo w session body st named =
    try_candidates-cases w (prepare_openai_upstream body).1 st session (requested_model body)
      (rule_set_of (resolution_of body st)) (prepare_openai_upstream body).0 named 0
      (offered body st) (text "no candidates")
