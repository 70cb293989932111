-- ===== src/Prelude/Sort.antt =====
-- `sort_by` and `sort_by_key`: a stable sort, by a test "not greater".
use Prim.Native.Nat.{◌+◌}
use mathlib.Core.Path.{◌≡◌, refl, sym}
use mathlib.Core.Bool.{Bool, true, false}
use mathlib.Core.Logic.{◌⊎◌, inl, inr, ◌↔◌}
use mathlib.Core.List.{List, [], ◌∷◌}
use native.Mathlib.Omega.{arith}
use aipowergateway.Prelude.Tests.{if◌then◌else◌, Bool-cases}
use aipowergateway.Prelude.Lists.{All, Any, IsMember, length}

module _ {A : Type 0} (le : A → A → Bool) where
  -- Before the first element that is not smaller, so that equal elements keep their order.
  insert_sorted : A → List A → List A
  insert_sorted x [] = x ∷ []
  insert_sorted x (y ∷ ys) = if le x y then x ∷ y ∷ ys else y ∷ insert_sorted x ys

  unfoldable pub sort_by : List A → List A
  unfolding insert_sorted
  sort_by [] = []
  sort_by (x ∷ xs) = insert_sorted x (sort_by xs)

  -- Each element is at most all that follow.
  abbrev pub IsSorted : List A → Type 0
  IsSorted [] = Unit
  IsSorted (x ∷ xs) = All (λ y. le x y ≡ true) xs × IsSorted xs

  module _ (total : (x y : A) → le x y ≡ false → le y x ≡ true)
      (trans : (x y z : A) → le x y ≡ true → le y z ≡ true → le x z ≡ true) where
    All-le_trans :
        (x y : A) (zs : List A)
        → le x y ≡ true
        → All (λ z. le y z ≡ true) zs
        → All (λ z. le x z ≡ true) zs
    All-le_trans x y [] h k = tt
    All-le_trans x y (z ∷ zs) h (p, k) = (trans x y z h p, All-le_trans x y zs h k)

    All-insert_sorted :
        (x y : A) (zs : List A)
        → le x y ≡ true
        → All (λ z. le x z ≡ true) zs
        → All (λ z. le x z ≡ true) (insert_sorted y zs)
    unfolding insert_sorted
    All-insert_sorted x y [] h k = (h, tt)
    All-insert_sorted x y (z ∷ zs) h (p, k) = elim (Bool-cases (le y z)) [
      | inl e ↦ rw e (h, (p, k))
      | inr e ↦ rw e (p, All-insert_sorted x y zs h k)
    ]

    insert_sorted-IsSorted : (x : A) (ys : List A) → IsSorted ys → IsSorted (insert_sorted x ys)
    unfolding insert_sorted
    insert_sorted-IsSorted x [] h = (tt, tt)
    insert_sorted-IsSorted x (y ∷ ys) (p, h) = elim (Bool-cases (le x y)) [
      | inl e ↦ rw e ((e, All-le_trans x y ys e p), (p, h))
      | inr e ↦ rw e (All-insert_sorted y x ys (total x y e) p, insert_sorted-IsSorted x ys h)
    ]

    pub sort_by-IsSorted : (xs : List A) → IsSorted (sort_by xs)
    unfolding sort_by
    sort_by-IsSorted [] = tt
    sort_by-IsSorted (x ∷ xs) = insert_sorted-IsSorted x (sort_by xs) (sort_by-IsSorted xs)

  module _ (P : A → Type 0) where
    insert_sorted-Any : (x : A) (ys : List A) → P x ⊎ Any P ys → Any P (insert_sorted x ys)
    unfolding insert_sorted
    insert_sorted-Any x [] h = h
    insert_sorted-Any x (y ∷ ys) h = elim (Bool-cases (le x y)) [
      | inl e ↦ rw e h
      | inr e ↦ rw e (elim h [
        | inl p ↦ inr (insert_sorted-Any x ys (inl p))
        | inr (inl p) ↦ inl p
        | inr (inr p) ↦ inr (insert_sorted-Any x ys (inr p))
      ])
    ]

    Any-insert_sorted : (x : A) (ys : List A) → Any P (insert_sorted x ys) → P x ⊎ Any P ys
    unfolding insert_sorted
    Any-insert_sorted x [] h = h
    Any-insert_sorted x (y ∷ ys) h = elim (Bool-cases (le x y)) [
      | inl e ↦ rw e at h
      | inr e ↦
          let k : P y ⊎ Any P (insert_sorted x ys) = rw e at h in
          elim k [
            | inl p ↦ inr (inl p)
            | inr q ↦ elim (Any-insert_sorted x ys q) [ inl p ↦ inl p | inr p ↦ inr (inr p) ]
          ]
    ]

    -- Sorting keeps the elements.
    pub Any-sort_by : (xs : List A) → Any P (sort_by xs) ↔ Any P xs
    unfolding sort_by
    Any-sort_by [] = (λ h. h, λ h. h)
    Any-sort_by (x ∷ xs) =
        let (to, from) = Any-sort_by xs in
        (
          λ h. elim (Any-insert_sorted x (sort_by xs) h) [ inl p ↦ inl p | inr p ↦ inr (to p) ],
          λ h. insert_sorted-Any x (sort_by xs) (elim h [ inl p ↦ inl p | inr p ↦ inr (from p) ]),
        )

  length-insert_sorted : (x : A) (ys : List A) → length (insert_sorted x ys) ≡ length ys + 1
  unfolding insert_sorted
  length-insert_sorted x [] = omega arith
  length-insert_sorted x (y ∷ ys) = ground (arith, length-insert_sorted x ys)

  length-sort_by : (xs : List A) → length (sort_by xs) ≡ length xs
  unfolding sort_by
  length-sort_by [] = refl
  length-sort_by (x ∷ xs) = omega (arith, length-insert_sorted x (sort_by xs), length-sort_by xs)

-- No element comes twice.
abbrev pub IsDistinct : {A : Type 0} → List A → Type 0
IsDistinct [] = Unit
IsDistinct (x ∷ xs) = ¬ IsMember x xs × IsDistinct xs

module _ {A : Type 0} (le : A → A → Bool) where
  insert_sorted-IsDistinct :
      (x : A) (ys : List A) → ¬ IsMember x ys → IsDistinct ys → IsDistinct (insert_sorted le x ys)
  unfolding insert_sorted
  insert_sorted-IsDistinct x [] n h = (n, tt)
  insert_sorted-IsDistinct x (y ∷ ys) n (fresh, h) = elim (Bool-cases (le x y)) [
    | inl e ↦ rw e (n, (fresh, h))
    | inr e ↦ rw e (
      λ m. elim (Any-insert_sorted le (λ z. y ≡ z) x ys m) [
        | inl same ↦ n (inl (sym same))
        | inr later ↦ fresh later
      ],
      insert_sorted-IsDistinct x ys (λ m. n (inr m)) h,
    )
  ]

  -- Sorting brings no element twice.
  pub sort_by-IsDistinct : (xs : List A) → IsDistinct xs → IsDistinct (sort_by le xs)
  unfolding sort_by
  sort_by-IsDistinct [] h = tt
  sort_by-IsDistinct (x ∷ xs) (fresh, h) =
      insert_sorted-IsDistinct x (sort_by le xs) (λ m. fresh ((Any-sort_by le (λ z. x ≡ z) xs).0 m))
        (sort_by-IsDistinct xs h)
