-- ===== src/Registry/Catalog.antt =====
-- What the model catalog lists.
use aipowergateway.Prelude.{
  ◌≡◌, refl, sym, ◌∙◌, ap, ◌↔◌, ◌⊎◌, inl, inr, true, false, Option, List, [], ◌∷◌, arith, map, All,
  Any, IsMember, All-of_members, IsMember-append, Bool-cases, subst,
}
use aipowergateway.Prelude.Text.{Text, text_eq, text_eq_iff, text_le_total, text_le_trans}
use aipowergateway.Prelude.Map.{Map}
use aipowergateway.Prelude.Sort.{IsSorted, sort_by-IsSorted, Any-sort_by}
use aipowergateway.Health.{ProviderState}
use aipowergateway.Backend.{Backend, models}
use aipowergateway.Registry.{
  RegistryInner, is_removed, listed, catalog_le, dedup_after, dedup, models_catalog,
}

module _ (health : Option (Map ProviderState)) (inner : RegistryInner) where
  le_total :
      (p q : Text × Text) → catalog_le health inner p q ≡ false → catalog_le health inner q p ≡ true
  le_total (m, n) (k, o) h = ground (arith, text_le_total m k)

  le_trans :
      (p q r : Text × Text)
      → catalog_le health inner p q ≡ true
      → catalog_le health inner q r ≡ true
      → catalog_le health inner p r ≡ true
  le_trans (m, n) (k, o) (l, u) h g = ground (arith, text_le_trans m k l)

  All-dedup_after :
      (P : Text × Text → Type 0) (p : Text × Text) (xs : List (Text × Text))
      → All P xs
      → All P (dedup_after health inner p xs)
  unfolding dedup_after
  All-dedup_after P p [] h = tt
  All-dedup_after P p (q ∷ xs) (h, hs) = elim (Bool-cases (text_eq q.0 p.0)) [
    | inl same ↦ rw same (All-dedup_after P p xs hs)
    | inr other ↦ rw other (h, All-dedup_after P q xs hs)
  ]

  dedup_after-IsSorted :
      (p : Text × Text) (xs : List (Text × Text))
      → IsSorted (catalog_le health inner) xs
      → IsSorted (catalog_le health inner) (dedup_after health inner p xs)
  unfolding dedup_after
  dedup_after-IsSorted p [] h = tt
  dedup_after-IsSorted p (q ∷ xs) (h, hs) = elim (Bool-cases (text_eq q.0 p.0)) [
    | inl same ↦ rw same (dedup_after-IsSorted p xs hs)
    | inr other ↦ rw other (All-dedup_after _ q xs h, dedup_after-IsSorted q xs hs)
  ]

  -- A model that is left out stands right before.
  dedup_after-covers :
      (m : Text) (p : Text × Text) (xs : List (Text × Text))
      → Any (λ q. q.0 ≡ m) xs
      → (p.0 ≡ m) ⊎ Any (λ q. q.0 ≡ m) (dedup_after health inner p xs)
  unfolding dedup_after
  dedup_after-covers m p [] h = absurd h
  dedup_after-covers m p (q ∷ xs) h = elim (Bool-cases (text_eq q.0 p.0)) [
    | inl same ↦ elim h [
      | inl here ↦ inl (sym ((text_eq_iff q.0 p.0).0 same) ∙ here)
      | inr later ↦ rw same (dedup_after-covers m p xs later)
    ]
    | inr other ↦ elim h [
      | inl here ↦ inr (rw other (inl here))
      | inr later ↦
          inr (rw other (elim (dedup_after-covers m q xs later) [ inl e ↦ inl e | inr r ↦ inr r ]))
    ]
  ]

  -- The pair is a model of a registered backend that is not removed.
  abbrev pub IsOffered : Text × Text → Type 0
  IsOffered (m, n) =
      (b : Backend) × IsMember {A = Text × Backend} (n, b) inner.backends
      × (is_removed health n ≡ false)
      × IsMember m (models b)

  IsMember-pairs :
      (m n k : Text) (ms : List Text)
      → IsMember {A = Text × Text} (m, n) (map (λ x. (x, k)) ms) ↔ ((n ≡ k) × IsMember m ms)
  IsMember-pairs m n k [] = (λ h. absurd h, λ (e, h). absurd h)
  IsMember-pairs m n k (x ∷ ms) =
      let (to, from) = IsMember-pairs m n k ms in
      (
        λ h. elim h [
          | inl e ↦ (ap (λ (p : Text × Text). p.1) e, inl (ap (λ (p : Text × Text). p.0) e))
          | inr later ↦ let (same, inside) = to later in (same, inr inside)
        ],
        λ (e, h). elim h [ inl here ↦ inl (rw (e, here) refl) | inr later ↦ inr (from (e, later)) ],
      )

  listed_iff :
      (p : Text × Text) (bs : Map Backend)
      → IsMember p (listed health inner bs) ↔ (
          (b : Backend) × IsMember {A = Text × Backend} (p.1, b) bs
          × (is_removed health p.1 ≡ false)
          × IsMember p.0 (models b))
  listed_iff (m, n) [] = (λ h. absurd h, λ (b, h, _, _). absurd h)
  listed_iff (m, n) ((k, c) ∷ bs) =
      let (to, from) = listed_iff (m, n) bs in
      elim (Bool-cases (is_removed health k)) [
        | inl gone ↦ (
          λ h.
              let (b, there, up, serves) = to (rw (gone, listed) at h) in
              (b, inr there, up, serves),
          λ (b, there, up, serves).
              rw (gone, listed)
                (elim there [
                  | inl here ↦
                      let clash : true ≡ false =
                        sym gone
                        ∙ (sym (ap (λ (x : Text × Backend). is_removed health x.0) here) ∙ up) in
                      cc
                  | inr later ↦ from (b, later, up, serves)
                ]),
        )
        | inr up_k ↦
            let (split, join) =
              IsMember-append (m, n) (map (λ x. (x, k)) (models c)) (listed health inner bs) in
            let (to_pair, from_pair) = IsMember-pairs m n k (models c) in
            (
              λ h. elim (split (rw (up_k, listed) at h)) [
                | inl here ↦
                    let (same, serves) = to_pair here in
                    (c, inl (rw same refl), (rw same up_k), serves)
                | inr later ↦ let (b, there, up, serves) = to later in (b, inr there, up, serves)
              ],
              λ (b, there, up, serves).
                  rw (up_k, listed)
                    (join (elim there [
                      | inl here ↦ inl (
                          from_pair (
                            ap (λ (x : Text × Backend). x.0) here,
                            subst (λ (x : Backend). IsMember m (models x))
                                (ap (λ (x : Text × Backend). x.1) here) serves,
                          ))
                      | inr later ↦ inr (from (b, later, up, serves))
                    ])),
            )
      ]

  first_of :
      (m : Text) (xs : List (Text × Text))
      → Any (λ q. q.0 ≡ m) xs ↔ ((n : Text) × IsMember {A = Text × Text} (m, n) xs)
  first_of m [] = (λ h. absurd h, λ (n, h). absurd h)
  first_of m ((k, o) ∷ xs) =
      let (to, from) = first_of m xs in
      (
        λ h. elim h [
          | inl e ↦ (o, inl (rw e refl))
          | inr later ↦ let (n, inside) = to later in (n, inr inside)
        ],
        λ (n, h). elim h [
          | inl e ↦ inl (sym (ap (λ (x : Text × Text). x.0) e))
          | inr later ↦ inr (from (n, later))
        ],
      )

  dedup-covers :
      (m : Text) (xs : List (Text × Text))
      → Any (λ q. q.0 ≡ m) xs
      → Any (λ q. q.0 ≡ m) (dedup health inner xs)
  unfolding dedup
  dedup-covers m [] h = h
  dedup-covers m (p ∷ xs) (inl here) = inl here
  dedup-covers m (p ∷ xs) (inr later) = dedup_after-covers m p xs later

  All-dedup :
      (P : Text × Text → Type 0) (xs : List (Text × Text))
      → All P xs
      → All P (dedup health inner xs)
  unfolding dedup
  All-dedup P [] h = tt
  All-dedup P (p ∷ xs) (h, hs) = (h, All-dedup_after P p xs hs)

  dedup-IsSorted :
      (xs : List (Text × Text))
      → IsSorted (catalog_le health inner) xs
      → IsSorted (catalog_le health inner) (dedup health inner xs)
  unfolding dedup
  dedup-IsSorted [] h = tt
  dedup-IsSorted (p ∷ xs) (h, hs) = (All-dedup_after _ p xs h, dedup_after-IsSorted p xs hs)

  -- Each entry of the catalog is a model of a registered backend that is not removed; each model of
  -- such a backend is listed, under this or another backend; and the entries of degraded backends
  -- come after the others, those of one rank in the order of the model names.
  models_catalog_lem :
      All IsOffered (models_catalog health inner)
      × ((p : Text × Text)
          → IsOffered p
          → (n : Text) × IsMember {A = Text × Text} (p.0, n) (models_catalog health inner))
      × IsSorted (catalog_le health inner) (models_catalog health inner)
  unfolding models_catalog
  models_catalog_lem =
      let everything = listed health inner inner.backends in
      (
        All-dedup IsOffered _ (
            All-of_members IsOffered _ (λ p inside.
              (listed_iff p inner.backends).0
                ((Any-sort_by (catalog_le health inner) (λ y. p ≡ y) everything).0 inside))),
        λ p offered. (first_of p.0 _).0 (
            dedup-covers p.0 _ (
              (first_of p.0 _).1 (
                p.1,
                (Any-sort_by (catalog_le health inner) (λ y. p ≡ y) everything).1
                    ((listed_iff p inner.backends).1 offered),
              ))),
        dedup-IsSorted _ (sort_by-IsSorted (catalog_le health inner) le_total le_trans everything),
      )
