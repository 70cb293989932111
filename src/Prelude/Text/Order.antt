-- ===== src/Prelude/Text/Order.antt =====
-- The order of strings: `cmp` is lexicographic.
use Prim.Native.Nat.{ℕ}
use mathlib.Core.Path.{◌≡◌, refl}
use mathlib.Core.Bool.{Bool, true, false, ◌&&◌, ◌||◌}
use mathlib.Core.List.{List, [], ◌∷◌}
use native.Mathlib.Omega.{arith}
use aipowergateway.Prelude.Tests.{◌==◌, ltb}

-- `a.cmp(b)` is not `Greater`.
unfoldable pub text_le : List ℕ → List ℕ → Bool
text_le [] t = true
text_le (c ∷ s) [] = false
text_le (c ∷ s) (d ∷ t) = ltb c d || ((c == d) && text_le s t)

pub text_le_total : (s t : List ℕ) → text_le s t ≡ false → text_le t s ≡ true
unfolding text_le
text_le_total [] t h = cc
text_le_total (c ∷ s) [] h = refl
text_le_total (c ∷ s) (d ∷ t) h = ground (arith, text_le_total s t)

pub text_le_trans : (s t u : List ℕ) → text_le s t ≡ true → text_le t u ≡ true → text_le s u ≡ true
unfolding text_le
text_le_trans [] t u h k = refl
text_le_trans (c ∷ s) [] u h k = cc
text_le_trans (c ∷ s) (d ∷ t) [] h k = cc
text_le_trans (c ∷ s) (d ∷ t) (e ∷ u) h k = ground (arith, text_le_trans s t u)

pub text_le_antisymm : (s t : List ℕ) → text_le s t ≡ true → text_le t s ≡ true → s ≡ t
unfolding text_le
text_le_antisymm [] [] h k = refl
text_le_antisymm [] (d ∷ t) h k = cc
text_le_antisymm (c ∷ s) [] h k = cc
text_le_antisymm (c ∷ s) (d ∷ t) h k = ground (arith, text_le_antisymm s t)
