-- ===== src/Prelude/Lists.antt =====
-- Lists measured by native numbers, with Boolean tests, and predicates on all or some elements.
use Prim.Native.Nat.{ℕ, zero, suc}
use mathlib.Core.Path.{◌≡◌, refl, sym, subst}
use mathlib.Core.Bool.{Bool, true, false, ◌||◌}
use mathlib.Core.Logic.{◌⊎◌, inl, inr, ◌↔◌}
use mathlib.Core.Option.{Option, none, some}
use mathlib.Core.List.{List, [], ◌∷◌, ◌++◌}
use native.Mathlib.Omega.{arith}
use aipowergateway.Prelude.Tests.{if◌then◌else◌, Bool-cases, Option-cases}

module _ {ℓ} {A : Type ℓ} where
  abbrev pub length : List A → ℕ
  length [] = 0
  length (x ∷ xs) = suc (length xs)

  abbrev pub head : List A → Option A
  head [] = none
  head (x ∷ xs) = some x

  abbrev pub last : List A → Option A
  last [] = none
  last (x ∷ []) = some x
  last (x ∷ y ∷ ys) = last (y ∷ ys)

  abbrev pub is_nil : List A → Bool
  is_nil [] = true
  is_nil (x ∷ xs) = false

  abbrev pub take : ℕ → List A → List A
  take zero xs = []
  take (suc n) [] = []
  take (suc n) (x ∷ xs) = x ∷ take n xs

  -- `Iterator::find`, `any`, and `Vec::retain`.
  abbrev pub find : (A → Bool) → List A → Option A
  find p [] = none
  find p (x ∷ xs) = if p x then some x else find p xs

  abbrev pub any : (A → Bool) → List A → Bool
  any p [] = false
  any p (x ∷ xs) = p x || any p xs

  abbrev pub retain : (A → Bool) → List A → List A
  retain p [] = []
  retain p (x ∷ xs) = if p x then x ∷ retain p xs else retain p xs

module _ {ℓ κ} {A : Type ℓ} {B : Type κ} where
  abbrev pub filter_map : (A → Option B) → List A → List B
  filter_map f [] = []
  filter_map f (x ∷ xs) = elim (f x) [ none ↦ filter_map f xs | some y ↦ y ∷ filter_map f xs ]

  abbrev pub concat_map : (A → List B) → List A → List B
  concat_map f [] = []
  concat_map f (x ∷ xs) = f x ++ concat_map f xs

module _ {ℓ} {A : Type ℓ} where
  abbrev pub All {κ} : (A → Type κ) → List A → Type κ
  All P [] = Unit
  All P (x ∷ xs) = P x × All P xs
  -- There is an element with the property; the place is kept.

module _ {A : Type 0} where
  -- There is an element with the property; its place is kept.
  abbrev pub Any : (A → Type 0) → List A → Type 0
  Any P [] = ⊥
  Any P (x ∷ xs) = P x ⊎ Any P xs

  abbrev pub IsMember : A → List A → Type 0
  IsMember x = Any (λ y. x ≡ y)

  pub find-IsMember :
      (p : A → Bool) (xs : List A) (x : A) → find p xs ≡ some x → IsMember x xs × (p x ≡ true)
  find-IsMember p [] x h = cc
  find-IsMember p (y ∷ ys) x h = elim (Bool-cases (p y)) [
    | inl e ↦ (inl (ground arith), ground arith)
    | inr e ↦ let (m, q) = find-IsMember p ys x (ground arith) in (inr m, q)
  ]

  pub find-eq-none : (p : A → Bool) (xs : List A) → find p xs ≡ none → All (λ x. p x ≡ false) xs
  find-eq-none p [] h = tt
  find-eq-none p (y ∷ ys) h = ground (arith, find-eq-none p ys)

  -- What holds of every element holds of each.
  pub All-member : (P : A → Type 0) (xs : List A) (x : A) → All P xs → IsMember x xs → P x
  All-member P [] x h m = absurd m
  All-member P (y ∷ ys) x (p, h) (inl e) = subst P (sym e) p
  All-member P (y ∷ ys) x (p, h) (inr m) = All-member P ys x h m

  pub All-of_members : (P : A → Type 0) (xs : List A) → ((x : A) → IsMember x xs → P x) → All P xs
  All-of_members P [] h = tt
  All-of_members P (y ∷ ys) h = (h y (inl refl), All-of_members P ys (λ x m. h x (inr m)))

module _ {A : Type 0} (p q : A → Bool) (weaker : (y : A) → q y ≡ true → p y ≡ true) where
  -- A stronger test that the found element passes finds it too.
  pub find_of_weaker : (xs : List A) (x : A) → find p xs ≡ some x → q x ≡ true → find q xs ≡ some x
  find_of_weaker [] x h k = cc
  find_of_weaker (y ∷ ys) x h k = ground (arith, weaker y, find_of_weaker ys x)

module _ {A : Type 0} (p : A → Bool) where
  pub IsMember-retain :
      (x : A) (xs : List A) → IsMember x (retain p xs) ↔ (IsMember x xs × (p x ≡ true))
  IsMember-retain x [] = (λ h. absurd h, λ h. absurd h.0)
  IsMember-retain x (y ∷ ys) =
      let (to, from) = IsMember-retain x ys in
      elim (Bool-cases (p y)) [
        | inl e ↦ rw e (
          λ h. elim h [
            | inl same ↦ (inl same, subst (λ z. p z ≡ true) (sym same) e)
            | inr m ↦ let (n, q) = to m in (inr n, q)
          ],
          λ h. elim h.0 [ inl same ↦ inl same | inr m ↦ inr (from (m, h.1)) ],
        )
        | inr e ↦ rw e (
          λ h. let (n, q) = to h in (inr n, q),
          λ h. elim h.0 [ inl same ↦ absurd (wrong y same e h.1) | inr m ↦ from (m, h.1) ],
        )
      ]
    where
      wrong : (y : A) → x ≡ y → p y ≡ false → p x ≡ true → ⊥
      wrong y same e h = cc

  pub All-retain : (xs : List A) → All (λ x. p x ≡ true) (retain p xs)
  All-retain [] = tt
  All-retain (y ∷ ys) = ground (arith, All-retain ys)

module _ {A : Type 0} (P : A → Type 0) where
  pub All-append : (xs ys : List A) → All P xs → All P ys → All P (xs ++ ys)
  All-append [] ys h k = k
  All-append (x ∷ xs) ys (p, h) k = (p, All-append xs ys h k)

module _ {A : Type 0} where
  pub IsMember-append :
      (x : A) (xs ys : List A) → IsMember x (xs ++ ys) ↔ (IsMember x xs ⊎ IsMember x ys)
  IsMember-append x [] ys = (inr, λ h. elim h [ inl m ↦ absurd m | inr m ↦ m ])
  IsMember-append x (z ∷ xs) ys =
      let (to, from) = IsMember-append x xs ys in
      (
        λ h. elim h [
          | inl e ↦ inl (inl e)
          | inr m ↦ elim (to m) [ inl n ↦ inl (inr n) | inr n ↦ inr n ]
        ],
        λ h. elim h [
          | inl (inl e) ↦ inl e
          | inl (inr m) ↦ inr (from (inl m))
          | inr m ↦ inr (from (inr m))
        ],
      )

module _ {A B : Type 0} where
  pub IsMember-filter_map :
      (f : A → Option B) (y : B) (xs : List A)
      → IsMember y (filter_map f xs) ↔ ((x : A) × IsMember x xs × (f x ≡ some y))
  IsMember-filter_map f y [] = (λ h. absurd h, λ (x, m, e). absurd m)
  IsMember-filter_map f y (z ∷ xs) =
      let (to, from) = IsMember-filter_map f y xs in
      elim (Option-cases (f z)) [
        | inl missed ↦ (
          λ h. let (x, m, e) = to (rw (missed, filter_map) at h) in (x, inr m, e),
          λ (x, m, e).
              rw (missed, filter_map)
                (elim m [
                  | inl same ↦ absurd (apart missed (subst (λ (v : A). f v ≡ some y) same e))
                  | inr later ↦ from (x, later, e)
                ]),
        )
        | inr (w, hit) ↦ (
          λ h. elim (let k : IsMember y (w ∷ filter_map f xs) = rw (hit, filter_map) at h in k) [
            | inl same ↦ (z, inl refl, rw same hit)
            | inr later ↦ let (x, m, e) = to later in (x, inr m, e)
          ],
          λ (x, m, e).
              rw (hit, filter_map)
                (elim m [
                  | inl same ↦ inl (same_image hit (subst (λ (v : A). f v ≡ some y) same e))
                  | inr later ↦ inr (from (x, later, e))
                ]),
        )
      ]
    where
      apart : {v : A} → f v ≡ none → f v ≡ some y → ⊥
      apart p q = cc

      same_image : {v : A} {w : B} → f v ≡ some w → f v ≡ some y → y ≡ w
      same_image p q = cc

  pub IsMember-concat_map :
      (f : A → List B) (y : B) (xs : List A)
      → IsMember y (concat_map f xs) ↔ ((x : A) × IsMember x xs × IsMember y (f x))
  IsMember-concat_map f y [] = (λ h. absurd h, λ (x, m, e). absurd m)
  IsMember-concat_map f y (z ∷ xs) =
      let (to, from) = IsMember-concat_map f y xs in
      let (split, join) = IsMember-append y (f z) (concat_map f xs) in
      (
        λ h. elim (split h) [
          | inl here ↦ (z, inl refl, here)
          | inr later ↦ let (x, m, e) = to later in (x, inr m, e)
        ],
        λ (x, m, e). join (elim m [
          | inl same ↦ inl (subst (λ (v : A). IsMember y (f v)) same e)
          | inr later ↦ inr (from (x, later, e))
        ]),
      )
