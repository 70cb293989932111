-- ===== src/Rules/Resolve.antt =====
-- How a rule set resolves: which rule serves, and in which order its candidates are tried.
use aipowergateway.Prelude.{
  ℕ, ◌≡◌, ◌≢◌, refl, sym, subst, ◌∙◌, ◌≤◌, ◌↔◌, Bool, true, false, Option, none, some, List, [],
  ◌∷◌, ◌++◌, map, arith, if◌then◌else◌, leb, is_nil, retain, Bool-cases, Option-cases, inl, inr,
  head, All, IsMember, IsMember-retain, All-retain, All-append, All-member,
}
use mathlib.Core.Option.{some-injective}
use aipowergateway.Prelude.Text.{Text, text, text_eq}
use aipowergateway.Prelude.Map.{lookup}
use aipowergateway.Prelude.Sort.{sort_by, IsSorted, sort_by-IsSorted, Any-sort_by}
use aipowergateway.Rules.{
  Candidate, Rule, RuleSet, Resolution, RuleResolver, first, fits, tier_key, nonempty, models_of,
  by_strategy, resolve, pick_rule,
}

-- By the context that a candidate takes; one without a limit last.
abbrev pub cheaper : Candidate → Candidate → Bool
cheaper a b = leb (tier_key a) (tier_key b)

-- What `token_tier` tries, in its order.
abbrev pub tier_list : Rule → ℕ → List Candidate
tier_list rule est = sort_by cheaper (retain (fits est) rule.candidates)

cheaper_total : (a b : Candidate) → cheaper a b ≡ false → cheaper b a ≡ true
cheaper_total a b h = ground arith

cheaper_trans : (a b c : Candidate) → cheaper a b ≡ true → cheaper b c ≡ true → cheaper a c ≡ true
cheaper_trans a b c h k = ground arith

tier_list-IsMember :
    (rule : Rule) (est : ℕ) (c : Candidate)
    → IsMember c (tier_list rule est) ↔ (IsMember c rule.candidates × (fits est c ≡ true))
tier_list-IsMember rule est c =
    let (to, from) = Any-sort_by cheaper (λ d. c ≡ d) (retain (fits est) rule.candidates) in
    let (out, back) = IsMember-retain (fits est) c rule.candidates in
    (λ h. out (to h), λ h. from (back h))

-- The first model of a sorted list of candidates costs no more than any that has a name.
head-models_of :
    (cs : List Candidate) (c : Candidate)
    → IsSorted cheaper cs
    → IsMember c cs
    → nonempty c.model ≡ true
    → (f : Candidate) × (head (models_of cs) ≡ some f.model)
      × IsMember f cs
      × (tier_key f ≤ tier_key c)
head-models_of [] c sorted m named = absurd m
head-models_of (d ∷ cs) c sorted m named = elim (Bool-cases (nonempty d.model)) [
  | inl has_name ↦ (
    d,
    rw has_name,
    inl refl,
    elim m [
      | inl same ↦ subst (λ (x : Candidate). tier_key d ≤ tier_key x) (sym same) (omega arith)
      | inr later ↦
          let below = All-member (λ y. cheaper d y ≡ true) cs c sorted.0 later in ground arith
    ],
  )
  | inr no_name ↦ elim m [
    | inl same ↦ absurd (unnamed same no_name)
    | inr later ↦
        let (f, is_head, inside, least) = head-models_of cs c sorted.1 later named in
        (f, rw no_name is_head, inr inside, least)
  ]
]
  where
    unnamed : c ≡ d → nonempty d.model ≡ false → ⊥
    unnamed same no_name =
        let none_either : nonempty c.model ≡ false =
          subst (λ (x : Candidate). nonempty x.model ≡ false) (sym same) no_name in
        cc

head-append : (xs ys : List Text) (x : Text) → head xs ≡ some x → head (xs ++ ys) ≡ some x
head-append [] ys x h = cc
head-append (y ∷ xs) ys x h = h

-- A list with a head is not empty, so that a test for emptiness fails.
cons_of_head :
    {A : Type 0} (a b : A) (xs : List Text) (x : Text)
    → head xs ≡ some x
    → (if is_nil xs then a else b) ≡ b
cons_of_head a b [] x h = cc
cons_of_head a b (y ∷ xs) x h = refl

retain_none :
    (p : Candidate → Bool) (cs : List Candidate) → All (λ c. p c ≡ false) cs → retain p cs ≡ []
retain_none p [] h = refl
retain_none p (c ∷ cs) (e, h) = rw e (retain_none p cs h)

module _ (requested : Text) (est : ℕ) (r : RuleResolver) (set : RuleSet) (rule : Rule)
    (found : lookup requested r.inner ≡ some set)
    (picked : pick_rule requested set.rules ≡ some rule) where
  -- The names that a request may be sent to.
  abbrev names : List Text
  names = by_strategy rule est ++ retain nonempty rule.fallback

  resolve-eq :
      resolve requested est r
      ≡ (if is_nil names then none else some (record { rule_set = set.name; candidates = names }))
  unfolding resolve
  resolve-eq = rw (found, resolve) (rw picked)

  -- By tiers, the first model that is tried is one of the rule's candidates that fit the estimate,
  -- and none of those that fit and have a name takes less context: if one fits there is a
  -- resolution, and it starts with the cheapest.
  pub first-resolve :
      (c : Candidate)
      → text_eq rule.strategy (text "fixed") ≡ false
      → IsMember c rule.candidates
      → fits est c ≡ true
      → nonempty c.model ≡ true
      → (res : Resolution) × (f : Candidate) × (resolve requested est r ≡ some res)
        × (res.rule_set ≡ set.name)
        × (first res ≡ some f.model)
        × IsMember f rule.candidates
        × (fits est f ≡ true)
        × (tier_key f ≤ tier_key c)
  unfolding first by_strategy
  first-resolve c tiered listed fitting named =
      let sorted =
        sort_by-IsSorted cheaper cheaper_total cheaper_trans (retain (fits est) rule.candidates) in
      let (f, is_head, inside, least) =
        head-models_of (tier_list rule est) c sorted
          ((tier_list-IsMember rule est c).1 (listed, fitting)) named in
      let (member, fits_f) = (tier_list-IsMember rule est f).0 inside in
      let chosen : by_strategy rule est ≡ models_of (tier_list rule est) =
        rw (tiered, by_strategy) in
      let starts : head names ≡ some f.model =
        rw chosen (head-append (models_of (tier_list rule est)) _ f.model is_head) in
      (
        record { rule_set = set.name; candidates = names },
        f,
        resolve-eq ∙ cons_of_head _ _ names f.model starts,
        refl,
        starts,
        member,
        fits_f,
        least,
      )

  -- By tiers, a prompt that no candidate takes is sent to the named models of the fallback alone, in
  -- their order; without any there is no resolution.
  pub resolve_oversized :
      text_eq rule.strategy (text "fixed") ≡ false
      → All (λ c. fits est c ≡ false) rule.candidates
      → resolve requested est r ≡ (
          let fallback = retain nonempty rule.fallback in
          if is_nil fallback
          then none
          else some (record { rule_set = set.name; candidates = fallback }))
  unfolding by_strategy
  resolve_oversized tiered none_fits =
      resolve-eq
      ∙ rw (tiered, by_strategy)
          (rw (retain_none (fits est) rule.candidates none_fits) (unfold sort_by in refl))

abbrev AllNamed : List Text → Type 0
AllNamed = All (λ m. nonempty m ≡ true)

by_strategy-AllNamed : (rule : Rule) (est : ℕ) → AllNamed (by_strategy rule est)
unfolding by_strategy
by_strategy-AllNamed rule est = elim (Bool-cases (text_eq rule.strategy (text "fixed"))) [
  | inl fixed ↦ rw (fixed, by_strategy) (All-retain nonempty (map (λ c. c.model) rule.candidates))
  | inr tiered ↦
      rw (tiered, by_strategy) (All-retain nonempty (map (λ c. c.model) (tier_list rule est)))
]

resolved-AllNamed :
    (name : Text) (xs : List Text) (res : Resolution)
    → AllNamed xs
    → (if is_nil xs then none else some (record { rule_set = name; candidates = xs })) ≡ some res
    → (res.candidates ≢ []) × AllNamed res.candidates
resolved-AllNamed name [] res a h = cc
resolved-AllNamed name (x ∷ xs) res a h =
    (λ e. cc, subst (λ (q : Resolution). AllNamed q.candidates) (some-injective _ _ h) a)

-- A resolution names at least one model, and no empty one.
resolve-nonempty :
    (requested : Text) (est : ℕ) (r : RuleResolver) (res : Resolution)
    → resolve requested est r ≡ some res
    → (res.candidates ≢ []) × All (λ m. nonempty m ≡ true) res.candidates
resolve-nonempty requested est r res h = elim (Option-cases (lookup requested r.inner)) [
  | inl missing ↦ absurd (unfold resolve in (none_some res (rw (missing, resolve) at h)))
  | inr (set, found) ↦ elim (Option-cases (pick_rule requested set.rules)) [
    | inl no_rule ↦ absurd (unfold resolve in (none_some res (rw (found, no_rule, resolve) at h)))
    | inr (rule, picked) ↦
        resolved-AllNamed set.name _ res
          (All-append _ _ _ (by_strategy-AllNamed rule est) (All-retain nonempty rule.fallback))
          (sym (resolve-eq requested est r set rule found picked) ∙ h)
  ]
]
  where
    none_some : (x : Resolution) → ◌≡◌ {A = Option Resolution} none (some x) → ⊥
    none_some x e = cc
