-- ===== src/Policy/Detect.antt =====
-- The screening of a request is the screening of each text that it carries: nothing is hidden by the
-- joining of the texts, and nothing is blocked by it.
use aipowergateway.Prelude.{
  ◌≡◌, refl, ◌∙◌, ap, ◌↔◌, inl, inr, Bool, true, false, not, ◌&&◌, ◌||◌, List, [], ◌∷◌, ◌++◌, arith,
  ◌==◌, is_some, any, All, Bool-cases, IsMember, subst,
}
use aipowergateway.Prelude.Text.{Text, text, starts_with, contains, join}
use aipowergateway.Policy.{PolicyRule, policy_rules, scan_rules, detect}

-- No line break occurs in the text.
abbrev one_line : Text → Bool
one_line [] = true
one_line (c ∷ t) = not (c == 10) && one_line t

abbrev AllOneLine : List PolicyRule → Type 0
AllOneLine = All (λ rule. All (λ t. one_line t ≡ true) rule.terms)

policy_rules-AllOneLine : AllOneLine policy_rules
unfolding policy_rules
policy_rules-AllOneLine = ground arith

starts_with-line :
    (a b t : Text) → one_line t ≡ true → starts_with (a ++ 10 ∷ b) t ≡ starts_with a t
unfolding starts_with
starts_with-line [] b [] h = refl
starts_with-line (c ∷ a) b [] h = refl
starts_with-line [] b (d ∷ t) h = ground arith
starts_with-line (c ∷ a) b (d ∷ t) h = ground (arith, starts_with-line a b t)

-- A text of one line occurs in two lines exactly if it occurs in one of them.
contains-line :
    (a b t : Text) → one_line t ≡ true → contains (a ++ 10 ∷ b) t ≡ (contains a t || contains b t)
unfolding contains
contains-line [] b t h = ground (arith, starts_with-line [] b t h)
contains-line (c ∷ a) b t h = ground (arith, starts_with-line (c ∷ a) b t h, contains-line a b t h)

any-line :
    (a b : Text) (terms : List Text)
    → All (λ t. one_line t ≡ true) terms
    → any (contains (a ++ 10 ∷ b)) terms ≡ (any (contains a) terms || any (contains b) terms)
any-line a b [] h = refl
any-line a b (t ∷ terms) h = ground (arith, contains-line a b t h.0, any-line a b terms h.1)

scan_rules-line :
    (rules : List PolicyRule) (a b : Text)
    → AllOneLine rules
    → is_some (scan_rules rules (a ++ 10 ∷ b))
      ≡ (is_some (scan_rules rules a) || is_some (scan_rules rules b))
unfolding scan_rules
scan_rules-line [] a b h = refl
scan_rules-line (rule ∷ rules) a b h =
    ground (arith, any-line a b rule.terms h.0, scan_rules-line rules a b h.1)

-- What is used of the lower-case table: a line break is no letter, so that the lines of a text are
-- converted one by one.
pub record IsLinewise (lower : Text → Text) : Type 0 where
  pub empty : lower [] ≡ []
  pub lines : (a b : Text) → lower (a ++ 10 ∷ b) ≡ lower a ++ 10 ∷ lower b

module _ (lower : Text → Text) (linewise : IsLinewise lower) where
  -- A text that is refused.
  abbrev pub flagged : Text → Bool
  flagged t = is_some (detect lower t)

  flagged-eq : (t : Text) → flagged t ≡ is_some (scan_rules policy_rules (lower t))
  unfolding detect
  flagged-eq [] = rw linewise.empty
  flagged-eq (c ∷ t) = refl

  flagged-line : (a b : Text) → flagged (a ++ 10 ∷ b) ≡ (flagged a || flagged b)
  flagged-line a b =
      flagged-eq (a ++ 10 ∷ b)
      ∙ ap (λ t. is_some (scan_rules policy_rules t)) (linewise.lines a b)
      ∙ scan_rules-line policy_rules (lower a) (lower b) policy_rules-AllOneLine
      ∙ rw (flagged-eq a, flagged-eq b)

  pub flagged-join : (parts : List Text) → flagged (join (text "\n") parts) ≡ any flagged parts
  unfolding join detect
  flagged-join [] = refl
  flagged-join (p ∷ []) = ground arith
  flagged-join (p ∷ q ∷ ps) =
      flagged-line p (join (text "\n") (q ∷ ps)) ∙ ap (λ b. flagged p || b) (flagged-join (q ∷ ps))

  pub any_iff :
      (parts : List Text)
      → (any flagged parts ≡ true) ↔ ((t : Text) × IsMember t parts × (flagged t ≡ true))
  any_iff [] = (λ h. cc, λ (t, m, e). absurd m)
  any_iff (p ∷ parts) =
      let (to, from) = any_iff parts in
      elim (Bool-cases (flagged p)) [
        | inl hit ↦ (λ h. (p, inl refl, hit), λ (t, m, e). rw (hit, ◌||◌))
        | inr miss ↦ (
          λ h. let (t, m, e) = to (ground arith) in (t, inr m, e),
          λ (t, m, e). elim m [
            | inl same ↦ absurd (clash _ miss (subst (λ (v : Text). flagged v ≡ true) same e))
            | inr later ↦ let found = from (t, later, e) in ground arith
          ],
        )
      ]
    where
      clash : (v : Text) → flagged v ≡ false → flagged v ≡ true → ⊥
      clash v p q = cc
