-- ===== src/Registry/Prefix.antt =====
-- The best prefix: which it is, and that no other is better.
use aipowergateway.Prelude.{
  ap, ℕ, ◌≡◌, refl, sym, ◌∙◌, ◌⊎◌, inl, inr, Bool, true, false, ◌&&◌, ◌||◌, Option, none, some,
  List, [], ◌∷◌, arith, ltb, leb, ◌==◌, length, All, IsMember, Bool-cases, Option-cases, subst,
}
use aipowergateway.Prelude.Text.{Text, text_eq, text_eq_iff, text_eq_refl, starts_with}
use aipowergateway.Prelude.Map.{Map, HasUniqueKeys, lookup}
use aipowergateway.Health.{ProviderState}
use aipowergateway.Registry.{RegistryInner, Best, route_rank, usable, better, best_prefix}

-- A length and a rank are not worse than others.
abbrev pub covers : ℕ → ℕ → ℕ → ℕ → Bool
covers len rank l r = ltb l len || ((l == len) && leb rank r)

covers_refl : (l r : ℕ) → covers l r l r ≡ true
covers_refl l r = ground arith

covers_trans :
    (a b c d e f : ℕ) → covers a b c d ≡ true → covers c d e f ≡ true → covers a b e f ≡ true
covers_trans a b c d e f h k = ground arith

better_covers : (a b c d : ℕ) → (ltb a c || ((c == a) && ltb d b)) ≡ true → covers c d a b ≡ true
better_covers a b c d h = ground arith

worse_covers : (a b c d : ℕ) → (ltb a c || ((c == a) && ltb d b)) ≡ false → covers a b c d ≡ true
worse_covers a b c d h = ground arith

pub some_inj : {A : Type 0} {x y : A} → some x ≡ some y → x ≡ y
some_inj h = cc

pub and_true : (a b : Bool) → (a && b) ≡ true → (a ≡ true) × (b ≡ true)
and_true a b h = ground arith

and_false : (a b : Bool) → (a && b) ≡ false → a ≡ true → b ≡ false
and_false a b h k = ground arith

module _ (health : Option (Map ProviderState)) (inner : RegistryInner) where
  -- The best is not worse than a prefix of that length and rank.
  abbrev pub at_least : Best → ℕ → ℕ → Bool
  at_least q len rank = covers q.len q.rank len rank

  pub best_found :
      (model : Text) (rest : List (Text × Text)) (best : Option Best) (q : Best)
      → best_prefix health inner model rest best ≡ some q
      → (best ≡ some q)
        ⊎ ((e : Text × Text) × IsMember e rest
            × (usable health inner model e ≡ true)
            × (q ≡ record { len = length e.0; backend = e.1; rank = route_rank health e.1 }))
  unfolding best_prefix
  best_found model [] best q h = inl h
  best_found model ((p, n) ∷ rest) best q h =
      elim (Bool-cases (
        usable health inner model (p, n)
        && better health inner (length p) (route_rank health n) best)) [
          | inl taken ↦ elim (best_found model rest _ q (rw taken at h)) [
            | inl e ↦ inr ((p, n), inl refl, (and_true _ _ taken).0, sym (some_inj e))
            | inr (e, inside, ok, same) ↦ inr (e, inr inside, ok, same)
          ]
          | inr kept ↦ elim (best_found model rest _ q (rw kept at h)) [
            | inl e ↦ inl e
            | inr (e, inside, ok, same) ↦ inr (e, inr inside, ok, same)
          ]
        ]

  pub best_max :
      (model : Text) (rest : List (Text × Text)) (best : Option Best) (q : Best)
      → best_prefix health inner model rest best ≡ some q
      → ((b : Best) → best ≡ some b → at_least q b.len b.rank ≡ true)
        × All
            (λ e.
              usable health inner model e ≡ true
              → at_least q (length e.0) (route_rank health e.1) ≡ true)
            rest
  unfolding best_prefix
  best_max model [] best q h = (λ b e. rw (some_inj (sym e ∙ h)) (covers_refl q.len q.rank), tt)
  best_max model ((p, n) ∷ rest) best q h =
      elim (Bool-cases (
        usable health inner model (p, n)
        && better health inner (length p) (route_rank health n) best)) [
          | inl taken ↦
              let (above, others) = best_max model rest _ q (rw taken at h) in
              let (ok, wins) = and_true _ _ taken in
              let new = above _ refl in
              (
                λ b e. covers_trans q.len q.rank (length p) (route_rank health n) b.len b.rank new (
                    better_covers b.len b.rank (length p) (route_rank health n) (
                      subst (λ o. better health inner (length p) (route_rank health n) o ≡ true) e
                        wins)),
                (λ used. new, others),
              )
          | inr kept ↦
              let (above, others) = best_max model rest _ q (rw kept at h) in
              (above, (λ used. loses above (and_false _ _ kept used), others))
        ]
    where
      loses :
          ((b : Best) → best ≡ some b → at_least q b.len b.rank ≡ true)
          → better health inner (length p) (route_rank health n) best ≡ false
          → at_least q (length p) (route_rank health n) ≡ true
      loses above worse = elim (Option-cases best) [
        | inl e ↦
            let clash : true ≡ false =
              subst (λ o. better health inner (length p) (route_rank health n) o ≡ false) e worse in
            cc
        | inr (b, e) ↦
            covers_trans q.len q.rank b.len b.rank (length p) (route_rank health n) (above b e) (
              worse_covers b.len b.rank (length p) (route_rank health n) (
                subst (λ o. better health inner (length p) (route_rank health n) o ≡ false) e
                  worse))
      ]

  pub best-usable :
      (model : Text) (q : Best)
      → best_prefix health inner model inner.prefixes none ≡ some q
      → (e : Text × Text) × IsMember e inner.prefixes
        × (usable health inner model e ≡ true)
        × (q ≡ record { len = length e.0; backend = e.1; rank = route_rank health e.1 })
  best-usable model q h = elim (best_found model inner.prefixes none q h) [ inl e ↦ cc | inr r ↦ r ]

  pub best_none :
      (model : Text) (rest : List (Text × Text)) (best : Option Best)
      → best_prefix health inner model rest best ≡ none
      → (best ≡ none) × All (λ e. usable health inner model e ≡ false) rest
  unfolding best_prefix
  best_none model [] best h = (h, tt)
  best_none model ((p, n) ∷ rest) best h =
      let tried =
        usable health inner model (p, n)
        && better health inner (length p) (route_rank health n) best in
      elim (Bool-cases tried) [
        | inl taken ↦ let (clash, _) = best_none model rest _ (rw taken at h) in cc
        | inr kept ↦
            let (unset, others) = best_none model rest best (rw kept at h) in
            (
              unset,
              (
                unusable (
                    subst
                      (λ o.
                        (usable health inner model (p, n)
                          && better health inner (length p) (route_rank health n) o)
                        ≡ false)
                      unset kept),
                others,
              ),
            )
      ]
    where
      unusable : {b : Bool} → (b && true) ≡ false → b ≡ false
      unusable {b} h = ground arith

-- Two prefixes of a text that are of the same length.
pub same_prefix :
    (s p q : Text) → starts_with s p ≡ true → starts_with s q ≡ true → length p ≡ length q → p ≡ q
unfolding starts_with
same_prefix s [] [] h k e = refl
same_prefix s [] (d ∷ q) h k e = ground arith
same_prefix s (c ∷ p) [] h k e = ground arith
same_prefix [] (c ∷ p) (d ∷ q) h k e = cc
same_prefix (x ∷ s) (c ∷ p) (d ∷ q) h k e = ground (arith, same_prefix s p q)

member-lookup :
    (m : Map Text) (e : Text × Text) → HasUniqueKeys m → IsMember e m → lookup e.0 m ≡ some e.1
unfolding lookup
member-lookup [] e u h = absurd h
member-lookup ((k, v) ∷ m) e (fresh, u) h = elim h [
  | inl here ↦
      rw (ap (λ (x : Text × Text). x.0) here, text_eq_refl k)
        (ap (λ (x : Text × Text). some x.1) (sym here))
  | inr later ↦ elim (Bool-cases (text_eq k e.0)) [
    | inl same ↦
        let gone = subst (λ (z : Text). lookup z m ≡ none) ((text_eq_iff k e.0).0 same) fresh in
        let clash = sym gone ∙ member-lookup m e u later in cc
    | inr apart ↦ rw apart (member-lookup m e u later)
  ]
]

pub same_entry :
    (m : Map Text) (e f : Text × Text)
    → HasUniqueKeys m
    → IsMember e m
    → IsMember f m
    → e.0 ≡ f.0
    → e ≡ f
same_entry m e f u h k p =
    let here = member-lookup m e u h in
    let there = member-lookup m f u k in
    let q : e.1 ≡ f.1 = some_inj (sym here ∙ ap (λ (z : Text). lookup z m) p ∙ there) in cc
