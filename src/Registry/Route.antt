-- ===== src/Registry/Route.antt =====
-- Where a model name is routed.
use aipowergateway.Prelude.{
  ◌≡◌, refl, sym, ◌∙◌, ap, ◌<◌, ◌⊎◌, inl, inr, Bool, true, false, not, Option, none, some, [], ◌∷◌,
  arith, ltb, if◌then◌else◌, length, IsMember, All-member, Bool-cases, Option-cases, subst,
}
use aipowergateway.Prelude.Text.{Text, text_eq_refl, starts_with}
use aipowergateway.Prelude.Map.{Map, HasUniqueKeys, lookup, contains_key}
use aipowergateway.Health.{ProviderState}
use aipowergateway.Backend.{Backend}
use aipowergateway.Registry.{
  RegistryInner, Best, is_removed, route_rank, usable, best_prefix, with_name, only_backend,
  route_by_prefix, exact_backend, route,
}
use aipowergateway.Registry.Prefix.{
  covers, some_inj, and_true, at_least, best_max, best_none, best-usable, same_prefix, same_entry,
}

module _ (health : Option (Map ProviderState)) (inner : RegistryInner) where
  with_name-lookup :
      (k n : Text) (b : Backend)
      → with_name health inner k ≡ some (n, b)
      → (k ≡ n) × (lookup n inner.backends ≡ some b)
  unfolding lookup
  with_name-lookup k n b h = elim (Option-cases (lookup k inner.backends)) [
    | inl missing ↦ let clash = rw (missing, with_name) at h in cc
    | inr (c, found) ↦
        let pair = some_inj (rw (found, with_name) at h) in
        (
          ap (λ x. x.0) pair,
          ap (λ x. lookup x inner.backends) (sym (ap (λ x. x.0) pair))
              ∙ found
              ∙ ap (λ x. some x.1) pair,
        )
  ]

  only_backend-lookup :
      (bs : Map Backend) (n : Text) (b : Backend)
      → only_backend health inner bs ≡ some (n, b)
      → (lookup n bs ≡ some b) × (is_removed health n ≡ false)
  unfolding lookup
  only_backend-lookup [] n b h = cc
  only_backend-lookup ((k, c) ∷ []) n b h = elim (Bool-cases (is_removed health k)) [
    | inl gone ↦ let clash = rw (gone, only_backend) at h in cc
    | inr usable_one ↦
        let pair = some_inj (rw (usable_one, only_backend) at h) in
        let same : k ≡ n = ap (λ x. x.0) pair in
        (
          ground (arith, text_eq_refl n, ap (λ x. x.1) pair),
          subst (λ (x : Text). is_removed health x ≡ false) same usable_one,
        )
  ]
  only_backend-lookup ((k, c) ∷ p ∷ bs) n b h = cc

  pub route_exact :
      (model k : Text) (c : Backend)
      → exact_backend health inner model ≡ some (k, c)
      → route health inner model ≡ (if is_removed health k then none else some (k, c))
  unfolding route
  route_exact model k c found = rw (found, route) refl

  route_prefix :
      (model : Text) (q : Best)
      → exact_backend health inner model ≡ none
      → best_prefix health inner model inner.prefixes none ≡ some q
      → route health inner model ≡ with_name health inner q.backend
  unfolding route
  route_prefix model q missing found = rw (missing, route, found, route_by_prefix) refl

  route_only :
      (model : Text)
      → exact_backend health inner model ≡ none
      → best_prefix health inner model inner.prefixes none ≡ none
      → route health inner model ≡ only_backend health inner inner.backends
  unfolding route
  route_only model missing none_found = rw (missing, route, none_found, route_by_prefix) refl

  pub exact_backend-found :
      (model n : Text) (c : Backend)
      → lookup model inner.exact ≡ some n
      → lookup n inner.backends ≡ some c
      → exact_backend health inner model ≡ some (n, c)
  exact_backend-found model n c mapped there = rw (mapped, exact_backend, there, with_name) refl

  exact_backend-lookup :
      (model k : Text) (c : Backend)
      → exact_backend health inner model ≡ some (k, c)
      → lookup k inner.backends ≡ some c
  exact_backend-lookup model k c h = elim (Option-cases (lookup model inner.exact)) [
    | inl missing ↦ let clash = rw (missing, exact_backend) at h in cc
    | inr (n, found) ↦ (with_name-lookup n k c (rw (found, exact_backend) at h)).1
  ]

  usable-parts :
      (model : Text) (e : Text × Text)
      → usable health inner model e ≡ true
      → (is_removed health e.1 ≡ false) × ((b : Backend) × (lookup e.1 inner.backends ≡ some b))
  usable-parts model e ok =
      let (has_backend, present) =
        and_true (contains_key e.1 inner.backends) (not (is_removed health e.1))
          (and_true (starts_with model e.0) _ ok).1 in
      (
        negated _ present,
        elim (Option-cases (lookup e.1 inner.backends)) [
          | inl missing ↦ let clash = rw (missing, contains_key) at has_backend in cc
          | inr found ↦ found
        ],
      )
    where
      negated : (b : Bool) → not b ≡ true → b ≡ false
      negated b h = ground arith

  -- A backend that a request is routed to is registered under the name returned, and is not removed.
  pub route-registered :
      (model n : Text) (b : Backend)
      → route health inner model ≡ some (n, b)
      → (lookup n inner.backends ≡ some b) × (is_removed health n ≡ false)
  route-registered model n b h = elim (Option-cases (exact_backend health inner model)) [
    | inl missing ↦ elim (Option-cases (best_prefix health inner model inner.prefixes none)) [
      | inl no_prefix ↦
          only_backend-lookup inner.backends n b (sym (route_only model missing no_prefix) ∙ h)
      | inr (q, found) ↦
          let (e, inside, ok, same) = best-usable health inner model q found in
          let (named, there) =
            with_name-lookup q.backend n b (sym (route_prefix model q missing found) ∙ h) in
          (
            there,
            subst (λ (x : Text). is_removed health x ≡ false)
                (sym (ap (λ (x : Best). x.backend) same) ∙ named) (usable-parts model e ok).0,
          )
    ]
    | inr ((k, c), found) ↦ elim (Bool-cases (is_removed health k)) [
      | inl gone ↦
          let clash : Path (Option (Text × Backend)) none (some (n, b)) =
            sym (rw gone at (route_exact model k c found)) ∙ h in
          ground arith
      | inr here ↦
          let pair = some_inj (sym (rw here at (route_exact model k c found)) ∙ h) in
          let same : k ≡ n = ap (λ x. x.0) pair in
          (
            ap (λ x. lookup x inner.backends) (sym same)
                ∙ exact_backend-lookup model k c found
                ∙ ap (λ x. some x.1) pair,
            subst (λ (x : Text). is_removed health x ≡ false) same here,
          )
    ]
  ]

  -- A model that is mapped to no registered backend, but begins with a prefix of a registered backend
  -- that is not removed, is routed to the backend of such a prefix, and every other such prefix is
  -- shorter: where each prefix is listed once, nothing but the length decides between them.
  pub route-longest_prefix :
      (model : Text) (e : Text × Text)
      → HasUniqueKeys inner.prefixes
      → exact_backend health inner model ≡ none
      → IsMember e inner.prefixes
      → usable health inner model e ≡ true
      → (f : Text × Text) × (b : Backend) × (route health inner model ≡ some (f.1, b))
        × (lookup f.1 inner.backends ≡ some b)
        × IsMember f inner.prefixes
        × (usable health inner model f ≡ true)
        × ((f ≡ e) ⊎ (length e.0 < length f.0))
  route-longest_prefix model e unique missing inside ok =
      elim (Option-cases (best_prefix health inner model inner.prefixes none)) [
        | inl no_prefix ↦
            let unused =
              All-member _ inner.prefixes e
                (best_none health inner model inner.prefixes none no_prefix).1 inside in
            cc
        | inr (q, found) ↦
            let (f, f_inside, f_ok, same) = best-usable health inner model q found in
            let (b, there) = (usable-parts model f f_ok).1 in
            let most =
              All-member _ inner.prefixes e
                (best_max health inner model inner.prefixes none q found).1 inside ok in
            let most_f : covers (length f.0) (route_rank health f.1) (length e.0)
                  (route_rank health e.1)
                ≡ true =
              subst
                (λ (x : Best). at_least health inner x (length e.0) (route_rank health e.1) ≡ true)
                same most in
            (
              f,
              b,
              route_prefix model q missing found
                  ∙ ap (λ (x : Best). with_name health inner x.backend) same
                  ∙ rw (there, with_name) refl,
              there,
              f_inside,
              f_ok,
              elim (Bool-cases (ltb (length e.0) (length f.0))) [
                | inl shorter ↦ inr (ground arith)
                | inr reached ↦
                    let lengths : length f.0 ≡ length e.0 = ground arith in
                    let texts =
                      same_prefix model f.0 e.0 (and_true (starts_with model f.0) _ f_ok).0
                        (and_true (starts_with model e.0) _ ok).0 lengths in
                    inl (same_entry inner.prefixes f e unique f_inside inside texts)
              ],
            )
      ]
