-- ===== src/Runtime/Boot/Outcome.antt =====
-- The loop of a boot: it is a run of the steps below, or it stops at a required module that fails.
use aipowergateway.Prelude.{
  ◌≡◌, ◌≢◌, refl, ◌∙◌, ap, ◌⊎◌, inl, inr, true, false, none, some, List, [], ◌∷◌, ◌++◌, arith,
  Result, ok, err, Option-cases, Bool-cases,
}
use mathlib.Core.List.{append_assoc, append-nil}
use aipowergateway.Prelude.Text.{Text, text_eq_refl}
use aipowergateway.Prelude.TextSet.{has}
use aipowergateway.Prelude.Map.{lookup}
use aipowergateway.Json.{Value}
use aipowergateway.Runtime.Error.{RuntimeError, display}
use aipowergateway.Runtime.Order.{Failure, failed}
use aipowergateway.Runtime.Boot.{Module, ModuleRegistry, BootResult, merge_module_config, boot_each}

module _ {H : Type 0} (r : ModuleRegistry H) (overrides : Value) where
  -- The steps of a boot: a module is booted, or skipped when it is optional and fails.
  pub data Boots : List Text → H → List Text → List (Text × Text) → H → Type 0 where
    finish : {h : H} → Boots [] h [] [] h
    start :
        {name : Text} {ns bs : List Text} {ss : List (Text × Text)} {h h1 h2 : H} (m : Module H)
        → lookup name r ≡ some m
        → m.apply (merge_module_config m.default_config overrides name) h ≡ (h1, none)
        → Boots ns h1 bs ss h2
        → Boots (name ∷ ns) h (name ∷ bs) ss h2
    skip :
        {name : Text} {ns bs : List Text} {ss : List (Text × Text)} {h h1 h2 : H} (m : Module H)
        (e : RuntimeError)
        → lookup name r ≡ some m
        → m.apply (merge_module_config m.default_config overrides name) h ≡ (h1, some e)
        → m.optional ≡ true
        → Boots ns h1 bs ss h2
        → Boots (name ∷ ns) h bs ((name, display e) ∷ ss) h2

  -- A required module of the list fails with the error, after the modules before it.
  pub record Stops (ns : List Text) (h : H) (e : RuntimeError) (h' : H) : Type 0 where
    pub before : List Text
    pub name : Text
    pub later : List Text
    pub listed : ns ≡ before ++ name ∷ later
    pub booted : List Text
    pub skipped : List (Text × Text)
    pub between : H
    pub ran : Boots before h booted skipped between
    pub culprit : Module H
    pub found : lookup name r ≡ some culprit
    pub required : culprit.optional ≡ false
    pub broke :
        culprit.apply (merge_module_config culprit.default_config overrides name) between
        ≡ (h', some e)

  unfoldable pub Outcome :
      List Text → H → List Text → List (Text × Text) → H × Result (BootResult H) Failure → Type 0
  Outcome ns h booted skipped res =
      ((bs : List Text) × (ss : List (Text × Text)) × (h' : H) × Boots ns h bs ss h'
        × (res ≡ (h', ok (record { host = h'; booted = booted ++ bs; skipped = skipped ++ ss }))))
      ⊎ ((e : RuntimeError) × (h' : H) × Stops ns h e h' × (res ≡ (h', err (failed e))))

  started :
      (n : Text) (ns : List Text) (h h1 : H) (booted : List Text) (skipped : List (Text × Text))
      {res next : H × Result (BootResult H) Failure} (m : Module H)
      → lookup n r ≡ some m
      → m.apply (merge_module_config m.default_config overrides n) h ≡ (h1, none)
      → res ≡ next
      → Outcome ns h1 (booted ++ n ∷ []) skipped next
      → Outcome (n ∷ ns) h booted skipped res
  unfolding Outcome
  started n ns h h1 booted skipped m found fine same (inl (bs, ss, h2, ran, h3)) = inl (
    n ∷ bs,
    ss,
    h2,
    start m found fine ran,
    same ∙ h3 ∙ rw (append_assoc booted (n ∷ []) bs) refl,
  )
  started n ns h h1 booted skipped m found fine same (inr (e, h2, s, h3)) = inr (
    e,
    h2,
    record {
      before = n ∷ s.before;
      name = s.name;
      later = s.later;
      listed = ap (λ l. n ∷ l) s.listed;
      booted = n ∷ s.booted;
      skipped = s.skipped;
      between = s.between;
      ran = start m found fine s.ran;
      culprit = s.culprit;
      found = s.found;
      required = s.required;
      broke = s.broke;
    },
    same ∙ h3,
  )

  skips :
      (n : Text) (ns : List Text) (h h1 : H) (booted : List Text) (skipped : List (Text × Text))
      {res next : H × Result (BootResult H) Failure} (m : Module H) (e : RuntimeError)
      → lookup n r ≡ some m
      → m.apply (merge_module_config m.default_config overrides n) h ≡ (h1, some e)
      → m.optional ≡ true
      → res ≡ next
      → Outcome ns h1 booted (skipped ++ (n, display e) ∷ []) next
      → Outcome (n ∷ ns) h booted skipped res
  unfolding Outcome
  skips n ns h h1 booted skipped m e found broke may same (inl (bs, ss, h2, ran, h3)) = inl (
    bs,
    (n, display e) ∷ ss,
    h2,
    skip m e found broke may ran,
    same ∙ h3 ∙ rw (append_assoc skipped ((n, display e) ∷ []) ss) refl,
  )
  skips n ns h h1 booted skipped m e found broke may same (inr (e2, h2, s, h3)) = inr (
    e2,
    h2,
    record {
      before = n ∷ s.before;
      name = s.name;
      later = s.later;
      listed = ap (λ l. n ∷ l) s.listed;
      booted = s.booted;
      skipped = (n, display e) ∷ s.skipped;
      between = s.between;
      ran = skip m e found broke may s.ran;
      culprit = s.culprit;
      found = s.found;
      required = s.required;
      broke = s.broke;
    },
    same ∙ h3,
  )

  pub boot_each-Outcome :
      (ns : List Text) (h : H) (booted : List Text) (skipped : List (Text × Text))
      → ((name : Text) → has name ns ≡ true → lookup name r ≢ none)
      → Outcome ns h booted skipped (boot_each r overrides ns h booted skipped)
  unfolding boot_each Outcome has
  boot_each-Outcome [] h booted skipped there =
      inl ([], [], h, finish, rw (append-nil booted, append-nil skipped) refl)
  boot_each-Outcome (n ∷ ns) h booted skipped there = elim (Option-cases (lookup n r)) [
    | inl absent ↦ absurd (there n (ground (arith, text_eq_refl n)) absent)
    | inr (m, found) ↦
        let cfg = merge_module_config m.default_config overrides n in
        let h1 = (m.apply cfg h).0 in
        let rest = λ (x : Text) (k : has x ns ≡ true). there x (ground arith) in
        elim (Option-cases (m.apply cfg h).1) [
          | inl fine ↦
              started n ns h h1 booted skipped m found (ap (λ o. (h1, o)) fine)
                (rw (found, boot_each, fine) refl)
                (boot_each-Outcome ns h1 (booted ++ n ∷ []) skipped rest)
          | inr (e, broke) ↦ elim (Bool-cases m.optional) [
            | inl may ↦
                skips n ns h h1 booted skipped m e found (ap (λ o. (h1, o)) broke) may
                  (rw (found, boot_each, broke, may) refl)
                  (boot_each-Outcome ns h1 booted (skipped ++ (n, display e) ∷ []) rest)
            | inr must ↦ inr (
              e,
              h1,
              record {
                before = [];
                name = n;
                later = ns;
                listed = refl;
                booted = [];
                skipped = [];
                between = h;
                ran = finish;
                culprit = m;
                found = found;
                required = must;
                broke = ap (λ o. (h1, o)) broke;
              },
              rw (found, boot_each, broke, must) refl,
            )
          ]
        ]
  ]
