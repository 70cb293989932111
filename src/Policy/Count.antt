-- ===== src/Policy/Count.antt =====
-- The counters of refused requests, and the switch.
use aipowergateway.Prelude.{
  ℕ, ◌+◌, ◌%◌, ◌≡◌, refl, ap, ◌∙◌, true, false, Option, none, some, List, [], ◌∷◌, arith,
  if◌then◌else◌, u64_mod, Bool-cases, Option-cases, inl, inr,
}
use aipowergateway.Prelude.Text.{Text}
use aipowergateway.Policy.{PolicyCategory, mining, deepfake, LoadPolicy, check, detect}

abbrev pub counts_for : PolicyCategory → Option PolicyCategory → ℕ
counts_for mining (some mining) = 1
counts_for deepfake (some deepfake) = 1
counts_for cat found = 0

module _ (lower : Text → Text) where
  -- The number of texts of a category.
  abbrev pub found : PolicyCategory → List Text → ℕ
  found cat [] = 0
  found cat (t ∷ ts) = counts_for cat (detect lower t) + found cat ts

  -- The policy after it has screened the texts, the first one first.
  unfoldable pub screen : List Text → LoadPolicy → LoadPolicy
  screen [] p = p
  screen (t ∷ ts) p = screen ts (check lower t p).1

  step-enabled :
      (t : Text) (p : LoadPolicy)
      → p.enabled ≡ true
      → ((check lower t p).1.enabled ≡ true)
        × ((check lower t p).1.mining_hits % u64_mod
            ≡ (p.mining_hits + counts_for mining (detect lower t)) % u64_mod)
        × ((check lower t p).1.deepfake_hits % u64_mod
            ≡ (p.deepfake_hits + counts_for deepfake (detect lower t)) % u64_mod)
  unfolding check
  step-enabled t p on = elim (Option-cases (detect lower t)) [
    | inl clean ↦ rw (on, clean) (on, ground arith, ground arith)
    | inr (mining, found_one) ↦ rw (on, found_one) (on, ground arith, ground arith)
    | inr (deepfake, found_one) ↦ rw (on, found_one) (on, ground arith, ground arith)
  ]

  counts :
      (ts : List Text) (p : LoadPolicy)
      → p.enabled ≡ true
      → ((screen ts p).mining_hits % u64_mod ≡ (p.mining_hits + found mining ts) % u64_mod)
        × ((screen ts p).deepfake_hits % u64_mod ≡ (p.deepfake_hits + found deepfake ts) % u64_mod)
  unfolding screen
  counts [] p on = (ground arith, ground arith)
  counts (t ∷ ts) p on =
      let (still_on, mines, fakes) = step-enabled t p on in
      let (rest_mines, rest_fakes) = counts ts (check lower t p).1 still_on in
      (ground arith, ground arith)

  check_off : (t : Text) (p : LoadPolicy) → p.enabled ≡ false → (check lower t p).1 ≡ p
  unfolding check
  check_off t p off = ground arith

  pub check_answer :
      (t : Text) (p : LoadPolicy)
      → (check lower t p).0 ≡ (if p.enabled then detect lower t else none)
  unfolding check
  check_answer t p = elim (Bool-cases p.enabled) [
    | inl on ↦ elim (Option-cases (detect lower t)) [
      | inl clean ↦ rw (on, clean) refl
      | inr (cat, found_one) ↦ rw (on, found_one) refl
    ]
    | inr off ↦ rw off refl
  ]

  screen_off : (ts : List Text) (p : LoadPolicy) → p.enabled ≡ false → screen ts p ≡ p
  unfolding screen
  screen_off [] p off = refl
  screen_off (t ∷ ts) p off = ap (screen ts) (check_off t p off) ∙ screen_off ts p off

  -- While screening is on, each text is answered with its category, and each counter has grown by the
  -- number of texts of its category, modulo 2^64. While it is off no text is refused and nothing is
  -- counted.
  hits-screen :
      (ts : List Text) (t : Text) (p : LoadPolicy)
      → ((check lower t p).0 ≡ (if p.enabled then detect lower t else none))
        × (p.enabled ≡ true
            → ((screen ts p).mining_hits % u64_mod ≡ (p.mining_hits + found mining ts) % u64_mod)
              × ((screen ts p).deepfake_hits % u64_mod
                  ≡ (p.deepfake_hits + found deepfake ts) % u64_mod))
        × (p.enabled ≡ false → screen ts p ≡ p)
  hits-screen ts t p = (check_answer t p, counts ts p, screen_off ts p)
