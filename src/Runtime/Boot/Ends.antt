-- ===== src/Runtime/Boot/Ends.antt =====
-- Every outcome of a boot: it ends without a panic, a boot that succeeds is a run in dependency
-- order, and one that fails leaves the host alone or stops at a required module.
use aipowergateway.Prelude.{
  ◌≡◌, ◌≢◌, refl, sym, ◌∙◌, ap, subst, ◌⊎◌, inl, inr, true, false, not, none, List, [], ◌∷◌, ◌++◌,
  arith, find, find-eq-none, All, Result, ok, err, Result-cases, ok_inj, Option-cases, Bool-cases,
}
use aipowergateway.Prelude.Text.{Text, text, text_eq, text_eq_iff}
use aipowergateway.Prelude.TextSet.{has}
use aipowergateway.Prelude.Map.{lookup, contains_key}
use aipowergateway.Json.{Value}
use aipowergateway.Runtime.Error.{RuntimeError, missing_module, dependency_cycle}
use aipowergateway.Runtime.Order.{Failure, failed, deps}
use aipowergateway.Runtime.Order.Sorted.{IsOrdered, topo_sort-IsOrdered}
use aipowergateway.Runtime.Order.Cycles.{topo_sort-ends}
use aipowergateway.Runtime.Boot.{ModuleRegistry, Role, BootResult, wanted, requires_of, boot}
use aipowergateway.Runtime.Boot.Outcome.{Boots, Stops, Outcome, boot_each-Outcome}

-- Each name of a list that passes the check of `boot` is registered.
registered :
    {H : Type 0} (r : ModuleRegistry H) (want : List Text)
    → All (λ name. not (contains_key name r) ≡ false) want
    → (x : Text) → has x want ≡ true
    → lookup x r ≢ none
unfolding has
registered r [] all x w = λ e. cc
registered r (n ∷ ns) (here, all) x w = elim (Bool-cases (text_eq n x)) [
  | inl same ↦ λ e.
      let gone = subst (λ (z : Text). lookup z r ≡ none) (sym ((text_eq_iff n x).0 same)) e in
      let clash = rw (gone) at here in cc
  | inr other ↦ registered r ns all x (ground arith)
]

clash :
    {H R : Type 0} {a b : H} {x : R} {e : Failure}
    → Path (H × Result R Failure) (a, ok x) (b, err e)
    → ⊥
clash p = let q = ap (λ z. z.1) p in cc

both_ok :
    {H R : Type 0} {a b : H} {x y : R}
    → Path (H × Result R Failure) (a, ok x) (b, ok y)
    → (a ≡ b) × (x ≡ y)
both_ok p = (ap (λ z. z.0) p, ok_inj (ap (λ z. z.1) p))

both_err :
    {H R : Type 0} {a b : H} {x y : RuntimeError}
    → Path (H × Result R Failure) (a, err (failed x)) (b, err (failed y))
    → (a ≡ b) × (x ≡ y)
both_err p = (ap (λ z. z.0) p, let q = ap (λ z. z.1) p in cc)

module _ {H : Type 0} (r : ModuleRegistry H) (role : Role) (overrides : Value) (h : H) where
  -- The order of a boot: the wanted modules are registered, and `topo_sort` orders them.
  pub record Planned (order : List Text) : Type 0 where
    pub want : List Text
    pub selected : wanted role overrides ≡ ok want
    pub ordered : IsOrdered (deps (requires_of r) want) [] order
    pub exact : (x : Text) → has x order ≡ has x want

  boot-cases :
      ((e : RuntimeError) × (boot r role overrides h ≡ (h, err (failed e))))
      ⊎ ((order : List Text) × Planned order
          × Outcome r overrides order h [] [] (boot r role overrides h))
  unfolding boot
  boot-cases = elim (Result-cases (wanted role overrides)) [
    | inl (e, bad) ↦ inl (e, rw (bad, boot) refl)
    | inr (want, good) ↦ elim (Option-cases (find (λ name. not (contains_key name r)) want)) [
      | inr (name, lacks) ↦ inl (missing_module name, rw (good, boot, lacks) refl)
      | inl all ↦
          let there = registered r want (find-eq-none _ want all) in
          elim (topo_sort-ends (requires_of r) want (λ x w. mapped x (there x w))) [
            | inr (e, stop, (c, needs, same)) ↦ inl (
              dependency_cycle (text "cycle at " ++ c),
              rw (good, boot, all, stop) (ap (λ f. (h, err f)) same),
            )
            | inl (order, sorts) ↦
                let (sorted, exact) = topo_sort-IsOrdered (requires_of r) want order sorts in
                inr (
                  order,
                  record { want = want; selected = good; ordered = sorted; exact = exact },
                  rw (good, boot, all, sorts)
                      (boot_each-Outcome r overrides order h [] []
                        (λ x k. there x (sym (exact x) ∙ k))),
                )
          ]
    ]
  ]
    where
      mapped : (x : Text) → lookup x r ≢ none → requires_of r x ≢ none
      mapped x there e = elim (Option-cases (lookup x r)) [
        | inl absent ↦ there absent
        | inr (m, found) ↦ let clash = rw (found) at e in cc
      ]

  -- A boot ends: it returns a result or an error of the runtime. No module that it looks up is
  -- missing, and the recursion of the sort is never cut off.
  boot-ends :
      ((h' : H) × (res : BootResult H) × (boot r role overrides h ≡ (h', ok res)))
      ⊎ ((h' : H) × (e : RuntimeError) × (boot r role overrides h ≡ (h', err (failed e))))
  unfolding Outcome
  boot-ends = elim boot-cases [
    | inl (e, same) ↦ inr (h, e, same)
    | inr (order, plan, inl (bs, ss, h', ran, same)) ↦ inl (h', _, same)
    | inr (order, plan, inr (e, h', stops, same)) ↦ inr (h', e, same)
  ]

  -- A boot that succeeds runs every wanted module once, each behind the wanted modules that it
  -- requires, and a module that fails is skipped only if it is optional.
  pub boot-Boots :
      (h' : H) (res : BootResult H)
      → boot r role overrides h ≡ (h', ok res)
      → (order : List Text) × Planned order
        × Boots r overrides order h res.booted res.skipped h'
        × (res.host ≡ h')
  unfolding Outcome
  boot-Boots h' res same = elim boot-cases [
    | inl (e, stop) ↦ absurd (clash (sym same ∙ stop))
    | inr (order, plan, inl (bs, ss, h2, ran, found)) ↦
        let (e1, e2) = both_ok (sym found ∙ same) in
        let run =
          subst
            (λ (x : BootResult H). Boots r overrides order h x.booted x.skipped h2 × (x.host ≡ h2))
            e2 (ran, refl) in
        let (runs, held) =
          subst (λ (a : H). Boots r overrides order h res.booted res.skipped a × (res.host ≡ a)) e1
            run in
        (order, plan, runs, held)
    | inr (order, plan, inr (e, h2, stops, stop)) ↦ absurd (clash (sym same ∙ stop))
  ]

  -- A boot that fails leaves the host as it was, or a required module failed with the error: the
  -- modules before it in the order have run, and none behind it.
  pub boot-Stops :
      (h' : H) (e : RuntimeError)
      → boot r role overrides h ≡ (h', err (failed e))
      → (h' ≡ h) ⊎ ((order : List Text) × Planned order × Stops r overrides order h e h')
  unfolding Outcome
  boot-Stops h' e same = elim boot-cases [
    | inl (e2, stop) ↦ inl (sym (both_err (sym stop ∙ same)).0)
    | inr (order, plan, inl (bs, ss, h2, ran, found)) ↦ absurd (clash (sym found ∙ same))
    | inr (order, plan, inr (e2, h2, stops, stop)) ↦
        let (e1, e3) = both_err (sym stop ∙ same) in
        inr (
          order,
          plan,
          subst (λ (a : H). Stops r overrides order h e a) e1
              (subst (λ (x : RuntimeError). Stops r overrides order h x h2) e3 stops),
        )
  ]
