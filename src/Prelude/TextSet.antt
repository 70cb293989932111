-- ===== src/Prelude/TextSet.antt =====
-- A `HashSet<String>` as a list without order.
use mathlib.Core.Path.{◌≡◌}
use mathlib.Core.Logic.{inl, inr}
use mathlib.Core.Bool.{Bool, false, ◌||◌}
use mathlib.Core.List.{List, [], ◌∷◌}
use native.Mathlib.Omega.{arith}
use aipowergateway.Prelude.Tests.{if◌then◌else◌, Bool-cases}
use aipowergateway.Prelude.Text.{Text, text_eq, text_eq_iff}

abbrev pub TextSet : Type 0
TextSet = List Text

-- `set.contains(t)`.
unfoldable pub has : Text → TextSet → Bool
unfolding text_eq
has t [] = false
has t (u ∷ s) = text_eq u t || has t s

unfoldable pub add : Text → TextSet → TextSet
unfolding has
add t s = if has t s then s else t ∷ s

unfoldable pub delete : Text → TextSet → TextSet
unfolding text_eq
delete t [] = []
delete t (u ∷ s) = if text_eq u t then delete t s else u ∷ delete t s

pub has-add : (t u : Text) (s : TextSet) → has u (add t s) ≡ (text_eq t u || has u s)
unfolding add has
has-add t u s = elim (Bool-cases (has t s)) [
  | inl old ↦ elim (Bool-cases (text_eq t u)) [
    | inl same ↦ rw (old, same, ← (text_eq_iff t u).0 same) old
    | inr other ↦ rw (old, other)
  ]
  | inr new ↦ rw new
]

pub has-delete :
    (t u : Text) (s : TextSet) → has u (delete t s) ≡ (if text_eq t u then false else has u s)
unfolding delete has
has-delete t u [] = ground arith
has-delete t u (w ∷ s) =
    ground (arith, text_eq_iff t u, text_eq_iff w t, text_eq_iff w u, has-delete t u s)
