-- ===== src/Runtime/Order/Steps.antt =====
-- What a successful visit does to the three sets.
use aipowergateway.Prelude.{
  ℕ, zero, suc, ◌≡◌, refl, ◌∙◌, ◌⊎◌, inl, inr, Bool, true, false, ◌||◌, Option, none, some, List,
  [], ◌∷◌, ◌++◌, arith, if◌then◌else◌, Result, ok, err, subst, Result-cases, ok_inj, after,
  after_err,
}
use aipowergateway.Prelude.Text.{Text, text, text_eq, text_eq_iff, text_eq_refl}
use aipowergateway.Prelude.TextSet.{TextSet, has, has-add, has-delete}
use aipowergateway.Runtime.Error.{dependency_cycle}
use aipowergateway.Runtime.Order.{Failure, failed, Dfs, opened, closed, each, deps, visit}

pub has-snoc : (x n : Text) (xs : TextSet) → has x (xs ++ n ∷ []) ≡ (has x xs || text_eq n x)
unfolding has
has-snoc x n [] = ground arith
has-snoc x n (y ∷ ys) = ground (arith, has-snoc x n ys)

-- The names `ns` are visited now; the stack is what it was, and no name of the stack was visited.
pub record IsStep (ns : List Text) (d d' : Dfs) : Type 0 where
  pub restored : (x : Text) → has x d'.visiting ≡ has x d.visiting
  pub grown : (x : Text) → has x d.visited ≡ true → has x d'.visited ≡ true
  pub kept : (x : Text) → has x d.visiting ≡ true → has x d'.visited ≡ has x d.visited
  pub done : (x : Text) → has x ns ≡ true → has x d'.visited ≡ true

-- A loop of steps is a step.
pub each-IsStep :
    (f : Text → Dfs → Result Dfs Failure)
    → ((n : Text) (d d' : Dfs) → f n d ≡ ok d' → IsStep (n ∷ []) d d')
    → (ns : List Text) (d d' : Dfs) → each f ns d ≡ ok d'
    → IsStep ns d d'
unfolding each has
each-IsStep f one [] d d' h =
    let same : d ≡ d' = ok_inj h in
    subst (λ (e : Dfs). IsStep [] d e) same
      (record { restored = λ x. refl; grown = λ x k. k; kept = λ x k. refl; done = λ x k. cc })
each-IsStep f one (n ∷ ns) d d' h = elim (Result-cases (f n d)) [
  | inl (e, stop) ↦ let clash = rw (stop, each) at h in cc
  | inr (d1, here) ↦
      let first = one n d d1 here in
      let rest = each-IsStep f one ns d1 d' (rw (here, each) at h) in
      record {
        restored = λ x. rest.restored x ∙ first.restored x;
        grown = λ x k. rest.grown x (first.grown x k);
        kept = λ x k. rest.kept x (first.restored x ∙ k) ∙ first.kept x k;
        done = λ x k. ground (arith, rest.grown x, first.done x, rest.done x);
      }
]

-- A loop that stops with an error stops at one of its names, where the stack is what it was.
pub each-err :
    (f : Text → Dfs → Result Dfs Failure)
    → ((n : Text) (d d' : Dfs) → f n d ≡ ok d' → IsStep (n ∷ []) d d')
    → (ns : List Text) (d : Dfs) (e : Failure) → each f ns d ≡ err e
    → (n : Text) × (d1 : Dfs) × (has n ns ≡ true)
      × (f n d1 ≡ err e)
      × ((x : Text) → has x d1.visiting ≡ has x d.visiting)
unfolding each has
each-err f one [] d e h = cc
each-err f one (n ∷ ns) d e h = elim (Result-cases (f n d)) [
  | inl (e1, stop) ↦
      let same : Path (Result Dfs Failure) (err e1) (err e) = rw (stop, each) at h in
      (n, d, ground (arith, text_eq_refl n), stop ∙ same, λ x. refl)
  | inr (d1, here) ↦
      let (m, d2, listed, stop, same) = each-err f one ns d1 e (rw (here, each) at h) in
      (m, d2, ground arith, stop, λ x. same x ∙ (one n d d1 here).restored x)
]

-- The tests of a visit, on any values.
visit_body :
    {A D : Type 0} (b c : Bool) (r : Option D) (x y z w v : A)
    → (if b then x else if c then y else elim r [ none ↦ z | some _ ↦ w ]) ≡ v
    → ((b ≡ true) × (x ≡ v))
      ⊎ ((b ≡ false) × (c ≡ true) × (y ≡ v))
      ⊎ ((r ≡ none) × (z ≡ v))
      ⊎ ((b ≡ false) × (c ≡ false) × (w ≡ v))
visit_body true c r x y z w v h = inl (refl, h)
visit_body false true r x y z w v h = inr (inl (refl, refl, h))
visit_body false false none x y z w v h = inr (inr (inl (refl, h)))
visit_body false false (some ds) x y z w v h = inr (inr (inr (refl, refl, h)))

stays : (name : Text) (d : Dfs) → has name d.visited ≡ true → IsStep (name ∷ []) d d
unfolding has
stays name d old = record {
  restored = λ x. refl;
  grown = λ x k. k;
  kept = λ x k. refl;
  done = λ x k. ground (arith, text_eq_iff name x);
}

closes :
    (name : Text) (d d1 : Dfs) (ns : List Text)
    → has name d.visited ≡ false
    → has name d.visiting ≡ false
    → IsStep ns (opened name d) d1
    → IsStep (name ∷ []) d (closed name d1)
unfolding has
closes name d d1 ns new free s = record {
  restored = λ x. ground (
    arith,
    has-delete name x d1.visiting,
    has-add name x d.visiting,
    s.restored x,
    text_eq_iff name x,
  );
  grown = λ x k. ground (arith, has-add name x d1.visited, s.grown x k);
  kept = λ x k.
      ground
        (arith, has-add name x d1.visited, has-add name x d.visiting, s.kept x, text_eq_iff name x);
  done = λ x k. ground (arith, has-add name x d1.visited);
}

module _ (requires : Text → Option (List Text)) (want : List Text) where
  pub visit-ok :
      (fuel : ℕ) (name : Text) (d d' : Dfs)
      → visit requires want (suc fuel) name d ≡ ok d'
      → ((has name d.visited ≡ true) × (d ≡ d'))
        ⊎ ((has name d.visited ≡ false)
            × (has name d.visiting ≡ false)
            × ((d1 : Dfs) × (each
                    (visit requires want fuel)
                    (deps requires want name)
                    (opened name d)
                  ≡ ok d1)
                × (closed name d1 ≡ d')))
  unfolding visit
  visit-ok fuel name d d' h =
      elim (visit_body (has name d.visited) (has name d.visiting) (requires name) _ _ _ _ _ h) [
        | inl (old, same) ↦ inl (old, ok_inj same)
        | inr (inl (new, open_now, clash)) ↦ cc
        | inr (inr (inl (missing, clash))) ↦ cc
        | inr (inr (inr (new, free, run))) ↦ inr (new, free, after (closed name) _ d' run)
      ]

  pub visit-err :
      (fuel : ℕ) (name : Text) (d : Dfs) (e : Failure)
      → visit requires want (suc fuel) name d ≡ err e
      → ((has name d.visiting ≡ true) × (e ≡ failed (dependency_cycle (text "cycle at " ++ name))))
        ⊎ (requires name ≡ none)
        ⊎ ((has name d.visiting ≡ false)
            × (each (visit requires want fuel) (deps requires want name) (opened name d) ≡ err e))
  unfolding visit
  visit-err fuel name d e h =
      elim (visit_body (has name d.visited) (has name d.visiting) (requires name) _ _ _ _ _ h) [
        | inl (old, clash) ↦ cc
        | inr (inl (new, open_now, stop)) ↦ inl (open_now, cc)
        | inr (inr (inl (missing, stop))) ↦ inr (inl missing)
        | inr (inr (inr (new, free, run))) ↦ inr (inr (free, after_err (closed name) _ e run))
      ]

  pub visit-IsStep :
      (fuel : ℕ) (name : Text) (d d' : Dfs)
      → visit requires want fuel name d ≡ ok d'
      → IsStep (name ∷ []) d d'
  unfolding visit
  visit-IsStep zero name d d' h = cc
  visit-IsStep (suc fuel) name d d' h = elim (visit-ok fuel name d d' h) [
    | inl (old, same) ↦ subst (λ (e : Dfs). IsStep (name ∷ []) d e) same (stays name d old)
    | inr (new, free, (d1, run, same)) ↦
        let s = each-IsStep (visit requires want fuel) (visit-IsStep fuel) _ _ d1 run in
        subst (λ (e : Dfs). IsStep (name ∷ []) d e) same (closes name d d1 _ new free s)
  ]
