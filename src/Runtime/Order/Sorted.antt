-- ===== src/Runtime/Order/Sorted.antt =====
-- The order that `topo_sort` returns: every wanted module once, behind what it requires.
use aipowergateway.Prelude.{
  ℕ, zero, suc, ◌≡◌, refl, ◌∙◌, inl, inr, true, false, ◌||◌, ◌&&◌, Option, List, [], ◌∷◌, ◌++◌,
  arith, Result, ok, Result-cases, ok_inj, after, subst, retain, length, unwrap_or,
}
use aipowergateway.Prelude.Text.{Text, text_eq_iff, text_eq_refl}
use aipowergateway.Prelude.TextSet.{TextSet, has, add, has-add}
use aipowergateway.Runtime.Order.{Failure, Dfs, closed, each, deps, visit, topo_sort}
use aipowergateway.Runtime.Order.Steps.{has-snoc, each-IsStep, visit-IsStep, visit-ok}

-- Behind the names `seen`, no name comes twice and each comes behind its dependencies.
abbrev pub IsOrdered : (Text → List Text) → List Text → List Text → Type 0
unfolding has
IsOrdered dep seen [] = Unit
IsOrdered dep seen (n ∷ ns) =
    (has n seen ≡ false)
    × ((x : Text) → has x (dep n) ≡ true → has x seen ≡ true)
    × IsOrdered dep (n ∷ seen) ns

IsOrdered-snoc :
    (dep : Text → List Text) (n : Text) (seen ns : List Text)
    → IsOrdered dep seen ns
    → has n seen ≡ false
    → has n ns ≡ false
    → ((x : Text) → has x (dep n) ≡ true → (has x seen || has x ns) ≡ true)
    → IsOrdered dep seen (ns ++ n ∷ [])
unfolding has
IsOrdered-snoc dep n seen [] h new k all = (new, λ x need. ground (arith, all x need), tt)
IsOrdered-snoc dep n seen (m ∷ ms) (fresh, before, h) new k all = (
  fresh,
  before,
  IsOrdered-snoc dep n (m ∷ seen) ms h (ground (arith, text_eq_iff m n, text_eq_iff n m))
      (ground arith) (λ x need. ground (arith, all x need)),
)

pub has-retain :
    (want : TextSet) (x : Text) (xs : List Text)
    → has x (retain (λ y. has y want) xs) ≡ (has x xs && has x want)
unfolding has
has-retain want x [] = refl
has-retain want x (y ∷ ys) = ground (arith, has-retain want x ys, text_eq_iff y x)

-- A loop keeps what each of its steps keeps.
each-keeps :
    (f : Text → Dfs → Result Dfs Failure) (P : Dfs → Type 0) (want : TextSet)
    → ((n : Text) (d d' : Dfs) → has n want ≡ true → P d → f n d ≡ ok d' → P d')
    → (ns : List Text) (d d' : Dfs) → ((x : Text) → has x ns ≡ true → has x want ≡ true)
    → P d
    → each f ns d ≡ ok d'
    → P d'
unfolding each has
each-keeps f P want one [] d d' all p h = let same : d ≡ d' = ok_inj h in subst P same p
each-keeps f P want one (n ∷ ns) d d' all p h = elim (Result-cases (f n d)) [
  | inl (e, stop) ↦ let clash = rw (stop, each) at h in cc
  | inr (d1, here) ↦
      each-keeps f P want one ns d1 d' (λ x k. all x (ground arith))
        (one n d d1 (all n (ground (arith, text_eq_refl n))) p here) (rw (here, each) at h)
]

module _ (requires : Text → Option (List Text)) (want : List Text) where
  -- The order lists what is visited, only wanted modules, each behind its dependencies.
  record IsSorted (d : Dfs) : Type 0 where
    pub listed : (x : Text) → has x d.order ≡ has x d.visited
    pub wanted : (x : Text) → has x d.visited ≡ true → has x want ≡ true
    pub ordered : IsOrdered (deps requires want) [] d.order

  closed-IsSorted :
      (n : Text) (d : Dfs)
      → has n want ≡ true
      → has n d.visited ≡ false
      → ((x : Text) → has x (deps requires want n) ≡ true → has x d.visited ≡ true)
      → IsSorted d
      → IsSorted (closed n d)
  unfolding has
  closed-IsSorted n d w new ready s = record {
    listed = λ x. ground (arith, has-snoc x n d.order, has-add n x d.visited, s.listed x);
    wanted = λ x k. ground (arith, has-add n x d.visited, s.wanted x, text_eq_iff n x);
    ordered =
        IsOrdered-snoc (deps requires want) n [] d.order s.ordered refl (s.listed n ∙ new)
          (λ x k. s.listed x ∙ ready x k);
  }

  visit-IsSorted :
      (fuel : ℕ) (name : Text) (d d' : Dfs)
      → has name want ≡ true
      → IsSorted d
      → visit requires want fuel name d ≡ ok d'
      → IsSorted d'
  unfolding visit
  visit-IsSorted zero name d d' w s h = cc
  visit-IsSorted (suc fuel) name d d' w s h = elim (visit-ok requires want fuel name d d' h) [
    | inl (old, same) ↦ subst IsSorted same s
    | inr (new, free, (d1, run, same)) ↦
        let step =
          each-IsStep (visit requires want fuel) (visit-IsStep requires want fuel) _ _ d1 run in
        let s1 =
          each-keeps (visit requires want fuel) IsSorted want (visit-IsSorted fuel) _ _ d1
            (λ x k. ground (arith, has-retain want x (unwrap_or (requires name) [])))
            (record { listed = s.listed; wanted = s.wanted; ordered = s.ordered }) run in
        let here : has name (add name d.visiting) ≡ true =
          ground (arith, has-add name name d.visiting, text_eq_refl name) in
        subst IsSorted same (closed-IsSorted name d1 w (step.kept name here ∙ new) step.done s1)
  ]

  -- A boot order that `topo_sort` returns has exactly the wanted modules, each of them once and
  -- behind every wanted module that it requires.
  pub topo_sort-IsOrdered :
      (order : List Text)
      → topo_sort requires want ≡ ok order
      → IsOrdered (deps requires want) [] order × ((x : Text) → has x order ≡ has x want)
  unfolding topo_sort has
  topo_sort-IsOrdered order h =
      let (d, run, same) = after (λ (d : Dfs). d.order) _ order h in
      let step =
        each-IsStep (visit requires want (suc (length want)))
          (visit-IsStep requires want (suc (length want))) want _ d run in
      let s =
        each-keeps (visit requires want (suc (length want))) IsSorted want
          (visit-IsSorted (suc (length want))) want _ d (λ x k. k)
          (record { listed = λ x. refl; wanted = λ x k. cc; ordered = tt }) run in
      (
        subst (IsOrdered (deps requires want) []) same s.ordered,
        λ x. subst (λ (o : List Text). has x o ≡ has x want) same (exact x d step.done s),
      )
    where
      exact :
          (x : Text) (d : Dfs)
          → ((y : Text) → has y want ≡ true → has y d.visited ≡ true)
          → IsSorted d
          → has x d.order ≡ has x want
      exact x d all s = ground (arith, s.listed x, s.wanted x, all x)
