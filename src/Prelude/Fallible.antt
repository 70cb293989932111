-- ===== src/Prelude/Fallible.antt =====
-- `Result<A, E>`.
use mathlib.Core.Bool.{Bool, true, false}
use mathlib.Core.Path.{◌≡◌, refl}
use mathlib.Core.Logic.{◌⊎◌, inl, inr}

pub data Result {ℓ} (A E : Type ℓ) : Type ℓ where
  ok : A → Result A E
  err : E → Result A E

abbrev pub is_ok {ℓ} : {A E : Type ℓ} → Result A E → Bool
is_ok (ok a) = true
is_ok (err e) = false

pub Result-cases :
    {A E : Type 0} (r : Result A E) → ((e : E) × (r ≡ err e)) ⊎ ((a : A) × (r ≡ ok a))
Result-cases (err e) = inl (e, refl)
Result-cases (ok a) = inr (a, refl)

pub ok_inj : {A E : Type 0} {x y : A} → Path (Result A E) (ok x) (ok y) → x ≡ y
ok_inj p = cc

-- A function of the value of a result.
pub after :
    {A E B : Type 0} (g : A → B) (r : Result A E) (b : B)
    → Path (Result B E) (elim r [ err e ↦ err e | ok a ↦ ok (g a) ]) (ok b)
    → (a : A) × (r ≡ ok a) × (g a ≡ b)
after g (err e) b h = cc
after g (ok a) b h = (a, refl, cc)

pub after_err :
    {A E B : Type 0} (g : A → B) (r : Result A E) (e : E)
    → Path (Result B E) (elim r [ err e ↦ err e | ok a ↦ ok (g a) ]) (err e)
    → r ≡ err e
after_err g (err e1) e h = cc
after_err g (ok a) e h = cc
