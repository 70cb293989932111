-- ===== src/Runtime/Order/Cycles.antt =====
-- When `topo_sort` fails: with modules that are registered it ends, with an order exactly when the
-- wanted modules have no cycle, and with the name of a module on a cycle otherwise.
use aipowergateway.Prelude.{
  ℕ, zero, suc, ◌<◌, ◌≤◌, ◌≡◌, ◌≢◌, ◌↔◌, refl, sym, ◌∙◌, ◌⊎◌, inl, inr, true, false, ◌||◌, Option,
  none, List, [], ◌∷◌, ◌++◌, arith, ok, err, Result-cases, after_err, subst, length, unwrap_or,
  Bool-cases, if◌then◌else◌,
}
use aipowergateway.Prelude.Text.{Text, text, text_eq, text_eq_iff}
use aipowergateway.Prelude.TextSet.{TextSet, has, add, has-add}
use aipowergateway.Runtime.Error.{dependency_cycle}
use aipowergateway.Runtime.Order.{Failure, failed, Dfs, deps, visit, topo_sort}
use aipowergateway.Runtime.Order.Steps.{each-err, visit-IsStep, visit-err}
use aipowergateway.Runtime.Order.Sorted.{IsOrdered, has-retain, topo_sort-IsOrdered}

-- The names that are not on the stack.
missing : TextSet → List Text → ℕ
unfolding has
missing v [] = 0
missing v (n ∷ ns) = if has n v then missing v ns else suc (missing v ns)

missing-same :
    (v w : TextSet) (ns : List Text)
    → ((x : Text) → has x v ≡ has x w)
    → missing v ns ≡ missing w ns
unfolding missing
missing-same v w [] h = refl
missing-same v w (n ∷ ns) h = ground (arith, h n, missing-same v w ns h)

missing-add_le : (n : Text) (v : TextSet) (ns : List Text) → missing (add n v) ns ≤ missing v ns
unfolding missing
missing-add_le n v [] = ground arith
missing-add_le n v (m ∷ ms) = ground (arith, missing-add_le n v ms, has-add n m v)

missing-add :
    (n : Text) (v : TextSet) (ns : List Text)
    → has n ns ≡ true
    → has n v ≡ false
    → missing (add n v) ns < missing v ns
unfolding missing has
missing-add n v [] h k = cc
missing-add n v (m ∷ ms) h k = ground (
  arith,
  missing-add n v ms,
  missing-add_le n v ms,
  has-add n m v,
  text_eq_iff m n,
  text_eq_iff n m,
)

missing_le_length : (v : TextSet) (ns : List Text) → missing v ns ≤ length ns
unfolding missing
missing_le_length v [] = ground arith
missing_le_length v (n ∷ ns) = ground (arith, missing_le_length v ns)

module _ (requires : Text → Option (List Text)) (want : List Text) where
  -- `a` requires `b`, directly or by others, among the wanted modules.
  pub data Needs : Text → Text → Type 0 where
    one : {a b : Text} → has b (deps requires want a) ≡ true → Needs a b
    more : {a b c : Text} → has b (deps requires want a) ≡ true → Needs b c → Needs a c

  snoc : {a b c : Text} → Needs a b → has c (deps requires want b) ≡ true → Needs a c
  snoc (one h) k = more h (one k)
  snoc (more h n) k = more h (snoc n k)

  -- The error of a module that needs itself.
  abbrev pub IsCycleError : Failure → Type 0
  IsCycleError e = (c : Text) × Needs c c × (e ≡ failed (dependency_cycle (text "cycle at " ++ c)))

  visit-IsCycleError :
      (registered : (x : Text) → has x want ≡ true → requires x ≢ none) (fuel : ℕ) (name : Text)
      (d : Dfs) (e : Failure)
      → has name want ≡ true
      → missing d.visiting want < fuel
      → ((x : Text) → has x d.visiting ≡ true → Needs x name)
      → visit requires want fuel name d ≡ err e
      → IsCycleError e
  unfolding visit
  visit-IsCycleError registered zero name d e w enough stack h = absurd (omega arith)
  visit-IsCycleError registered (suc fuel) name d e w enough stack h =
      elim (visit-err requires want fuel name d e h) [
        | inl (open_now, stop) ↦ (name, stack name open_now, stop)
        | inr (inl absent) ↦ absurd (registered name w absent)
        | inr (inr (free, run)) ↦
            let (n, d1, listed, stop, same) =
              each-err (visit requires want fuel) (visit-IsStep requires want fuel) _ _ e run in
            visit-IsCycleError registered fuel n d1 e
              (ground (arith, has-retain want n (unwrap_or (requires name) [])))
              (let less = missing-add name d.visiting want w free in
                let kept = missing-same d1.visiting (add name d.visiting) want same in omega arith)
              (λ x k. below x n listed (sym (has-add name x d.visiting) ∙ sym (same x) ∙ k)) stop
      ]
    where
      below :
          (x n : Text)
          → has n (deps requires want name) ≡ true
          → (text_eq name x || has x d.visiting) ≡ true
          → Needs x n
      below x n listed k = elim (Bool-cases (text_eq name x)) [
        | inl e1 ↦ subst (λ (y : Text). Needs y n) ((text_eq_iff name x).0 e1) (one listed)
        | inr e1 ↦ snoc (stack x (ground arith)) listed
      ]

  -- With every wanted module registered the sort ends: it returns an order, or names a module
  -- that needs itself among the wanted ones. It neither panics nor runs out of fuel.
  pub topo_sort-ends :
      ((x : Text) → has x want ≡ true → requires x ≢ none)
      → ((order : List Text) × (topo_sort requires want ≡ ok order))
        ⊎ ((e : Failure) × (topo_sort requires want ≡ err e) × IsCycleError e)
  unfolding topo_sort has
  topo_sort-ends registered = elim (Result-cases (topo_sort requires want)) [
    | inr (order, h) ↦ inl (order, h)
    | inl (e, h) ↦
        let run = after_err (λ (d : Dfs). d.order) _ e h in
        let (n, d1, listed, stop, same) =
          each-err (visit requires want (suc (length want)))
            (visit-IsStep requires want (suc (length want))) want _ e run in
        inr (
          e,
          h,
          visit-IsCycleError registered (suc (length want)) n d1 e listed
              (let bound = missing_le_length d1.visiting want in omega arith)
              (λ x k. let clash = sym (same x) ∙ k in cc) stop,
        )
  ]

  -- A list that is closed under dependencies holds all that its members need.
  needs_closed :
      (seen : List Text)
      → ((a x : Text) → has a seen ≡ true → has x (deps requires want a) ≡ true → has x seen ≡ true)
      → (a b : Text) → has a seen ≡ true
      → Needs a b
      → has b seen ≡ true
  needs_closed seen all a b h (one k) = all a b h k
  needs_closed seen all a c h (more {b} k n) = needs_closed seen all b c (all a b h k) n

  ordered_acyclic :
      (seen ns : List Text)
      → IsOrdered (deps requires want) seen ns
      → ((a x : Text) → has a seen ≡ true → has x (deps requires want a) ≡ true → has x seen ≡ true)
      → ((a : Text) → has a seen ≡ true → Needs a a → ⊥)
      → (a : Text) → (has a seen || has a ns) ≡ true
      → Needs a a
      → ⊥
  unfolding has
  ordered_acyclic seen [] h all none_yet a k n = none_yet a (ground arith) n
  ordered_acyclic seen (m ∷ ms) (fresh, before, h) all none_yet a k n =
      ordered_acyclic (m ∷ seen) ms h
        (λ b x l need. ground (arith, all b x, here b x need, text_eq_iff m b))
        (λ b l. elim (Bool-cases (text_eq m b)) [
          | inl e ↦ λ c. let clash = own b e c in cc
          | inr e ↦ none_yet b (ground arith)
        ])
        a (ground arith) n
    where
      here : (b x : Text) → has x (deps requires want b) ≡ true → m ≡ b → has x seen ≡ true
      here b x need e =
          before x (subst (λ (y : Text). has x (deps requires want y) ≡ true) (sym e) need)

      first : {b : Text} → Needs m b → has b seen ≡ true
      first (one l) = before _ l
      first (more l c) = needs_closed seen all _ _ (before _ l) c

      own : (b : Text) → text_eq m b ≡ true → Needs b b → has m seen ≡ true
      own b e c =
          let same = (text_eq_iff m b).0 e in
          first (
            subst (λ (y : Text). Needs y m) (sym same)
              (subst (λ (y : Text). Needs b y) (sym same) c))

  -- With every wanted module registered, `topo_sort` returns an order exactly when no wanted
  -- module needs itself.
  pub topo_sort-acyclic :
      ((x : Text) → has x want ≡ true → requires x ≢ none)
      → ((order : List Text) × (topo_sort requires want ≡ ok order))
        ↔ ((c : Text) → has c want ≡ true → Needs c c → ⊥)
  unfolding has
  topo_sort-acyclic registered = (
    λ (order, h) c w n.
        let (sorted, exact) = topo_sort-IsOrdered requires want order h in
        ordered_acyclic [] order sorted (λ a x k. cc) (λ a k. cc) c (exact c ∙ w) n,
    λ none_there. elim (topo_sort-ends registered) [
      | inl found ↦ found
      | inr (e, h, (c, n, same)) ↦ absurd (none_there c (last_wanted n) n)
    ],
  )
    where
      last_wanted : {a b : Text} → Needs a b → has b want ≡ true
      last_wanted (one {a} {b} h) = ground (arith, has-retain want b (unwrap_or (requires a) []))
      last_wanted (more h n) = last_wanted n
