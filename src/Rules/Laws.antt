-- ===== src/Rules/Laws.antt =====
-- Which rule of a set serves, and how the resolver's map of sets changes.
use aipowergateway.Prelude.{
  ℕ, ◌≡◌, refl, subst, ◌≤◌, ◌⊎◌, Bool, true, false, none, some, List, [], ◌∷◌, arith, leb, find,
  Bool-cases, Option-cases, inl, inr, All, IsMember, find-IsMember, find-eq-none,
}
use aipowergateway.Prelude.Text.{Text, text, text_eq, text_eq_refl}
use aipowergateway.Prelude.Map.{lookup-insert, lookup-remove}
use aipowergateway.Rules.{
  Rule, RuleSet, RuleResolver, resolve, pick_rule, min_by_order, upsert, remove_set,
}

abbrev IsLeast : Rule → List Rule → Type 0
IsLeast rule v = IsMember rule v × All (λ x. rule.order ≤ x.order) v

All-order_trans :
    (a b : ℕ) (v : List Rule) → a ≤ b → All (λ x. b ≤ x.order) v → All (λ x. a ≤ x.order) v
All-order_trans a b [] h k = tt
All-order_trans a b (x ∷ v) h k = (omega arith, All-order_trans a b v h k.1)

min_by_order-eq-none : (v : List Rule) → min_by_order v ≡ none → v ≡ []
unfolding min_by_order
min_by_order-eq-none [] h = refl
min_by_order-eq-none (x ∷ v) h = ground arith

min_by_order-IsLeast : (v : List Rule) (rule : Rule) → min_by_order v ≡ some rule → IsLeast rule v
unfolding min_by_order
min_by_order-IsLeast [] rule h = cc
min_by_order-IsLeast (x ∷ v) rule h = elim (Option-cases (min_by_order v)) [
  | inl missing ↦
      let only : x ≡ rule = ground arith in
      subst (λ (z : Rule). IsLeast z (x ∷ v)) only
        (inl refl, (omega arith, rw (min_by_order-eq-none v missing) tt))
  | inr (s, found) ↦
      let (member, least) = min_by_order-IsLeast v s found in
      elim (Bool-cases (leb x.order s.order)) [
        | inl first ↦
            let same : x ≡ rule = ground arith in
            subst (λ (z : Rule). IsLeast z (x ∷ v)) same
              (inl refl, (omega arith, All-order_trans x.order s.order v (ground arith) least))
        | inr later ↦
            let same : s ≡ rule = ground arith in
            subst (λ (z : Rule). IsLeast z (x ∷ v)) same (inr member, (ground arith, least))
      ]
]

abbrev is_star : Rule → Bool
is_star x = text_eq x.match_model (text "*")

abbrev is_exact : Text → Rule → Bool
is_exact requested x = text_eq x.match_model requested

-- The rule that serves a request is one of the set's: one for every model (`*`) if there is one,
-- else one for the requested name, else one whose order is above no other rule's. A set with a rule
-- always has one.
pick_rule_lem :
    (requested : Text) (v : List Rule)
    → ((pick_rule requested v ≡ none) → v ≡ [])
      × ((rule : Rule)
          → pick_rule requested v ≡ some rule
          → IsMember rule v
            × ((text_eq rule.match_model (text "*") ≡ true)
                ⊎ (All (λ x. text_eq x.match_model (text "*") ≡ false) v
                    × (text_eq rule.match_model requested ≡ true))
                ⊎ (All (λ x. text_eq x.match_model (text "*") ≡ false) v
                    × All (λ x. text_eq x.match_model requested ≡ false) v
                    × All (λ x. rule.order ≤ x.order) v)))
unfolding pick_rule
pick_rule_lem requested v = (
  λ h. min_by_order-eq-none v (ground arith),
  λ rule h. elim (Option-cases (find is_star v)) [
    | inr (x, found) ↦
        let (member, holds) = find-IsMember is_star v x found in
        let same : x ≡ rule = ground arith in
        subst (λ (z : Rule). Served z) same (member, inl holds)
    | inl no_star ↦ elim (Option-cases (find (is_exact requested) v)) [
      | inr (x, found) ↦
          let (member, holds) = find-IsMember (is_exact requested) v x found in
          let same : x ≡ rule = ground arith in
          subst (λ (z : Rule). Served z) same
            (member, inr (inl (find-eq-none is_star v no_star, holds)))
      | inl no_exact ↦
          let (member, least) = min_by_order-IsLeast v rule (ground arith) in
          (
            member,
            inr (
                inr (
                  find-eq-none is_star v no_star,
                  find-eq-none (is_exact requested) v no_exact,
                  least,
                )),
          )
    ]
  ],
)
  where
    Served : Rule → Type 0
    Served z =
        IsMember z v
        × ((is_star z ≡ true)
            ⊎ (All (λ x. is_star x ≡ false) v × (is_exact requested z ≡ true))
            ⊎ (All (λ x. is_star x ≡ false) v
                × All (λ x. is_exact requested x ≡ false) v
                × All (λ x. z.order ≤ x.order) v))

-- To put a set in changes the resolution of no request for another name. A name whose set is removed
-- resolves to nothing, so that it is taken for a model, and no other request is affected.
resolve-upsert :
    (rs : RuleSet) (name requested : Text) (est : ℕ) (r : RuleResolver)
    → (text_eq rs.name requested ≡ false
        → resolve requested est (upsert rs r) ≡ resolve requested est r)
      × (resolve name est (remove_set name r).0 ≡ none)
      × (text_eq name requested ≡ false
          → resolve requested est (remove_set name r).0 ≡ resolve requested est r)
unfolding resolve upsert remove_set
resolve-upsert rs name requested est r = (
  λ other. rw (lookup-insert rs.name requested rs r.inner, other, resolve, upsert),
  rw (lookup-remove name name r.inner, text_eq_refl name, resolve, remove_set),
  λ other. rw (lookup-remove name requested r.inner, other, resolve, remove_set),
)
