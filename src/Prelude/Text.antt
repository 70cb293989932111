-- ===== src/Prelude/Text.antt =====
-- Rust strings as lists of code points: equality, the order of `cmp` (UTF-8 keeps the order of the
-- code points), prefixes, substrings, `trim`, `join` and `to_string` of a number.
mod Order
unfoldable pub use Order.{text_le}
pub use Order.{text_le_total, text_le_trans, text_le_antisymm}
use Prim.Native.Char.{code}
use Prim.Native.String.{String}
use Prim.Native.Nat.{ℕ, zero, suc, ◌+◌, ◌/◌, ◌%◌}
use mathlib.Core.Path.{◌≡◌, refl, ap₂}
use mathlib.Core.Logic.{◌↔◌, ◌≢◌}
use mathlib.Core.Bool.{Bool, true, false, ◌&&◌, ◌||◌, not}
use mathlib.Core.List.{List, [], ◌∷◌, ◌++◌, reverse, reverse_aux}
use native.Mathlib.Omega.{arith}
use aipowergateway.Prelude.Tests.{◌==◌, ==_iff, leb, if◌then◌else◌, Bool-cases}
use aipowergateway.Prelude.Lists.{is_nil}

abbrev pub Text : Type 0
Text = List ℕ

-- A literal of the source.
abbrev pub text : String → Text
text String.[] = []
text (String.◌∷◌ c s) = code c ∷ text s

unfoldable pub text_eq : Text → Text → Bool
text_eq [] [] = true
text_eq [] (d ∷ t) = false
text_eq (c ∷ s) [] = false
text_eq (c ∷ s) (d ∷ t) = (c == d) && text_eq s t

text_eq_sound : (s t : Text) → text_eq s t ≡ true → s ≡ t
unfolding text_eq
text_eq_sound [] [] h = refl
text_eq_sound [] (d ∷ t) h = cc
text_eq_sound (c ∷ s) [] h = cc
text_eq_sound (c ∷ s) (d ∷ t) h = ground (arith, text_eq_sound s t)

pub text_eq_refl : (s : Text) → text_eq s s ≡ true
unfolding text_eq
text_eq_refl [] = refl
text_eq_refl (c ∷ s) = ground (arith, text_eq_refl s)

pub text_eq_iff : (s t : Text) → (text_eq s t ≡ true) ↔ (s ≡ t)
text_eq_iff s t = (text_eq_sound s t, λ e. rw e (text_eq_refl t))

-- `s.starts_with(p)`, and `s.contains(p)`.
unfoldable pub starts_with : Text → Text → Bool
starts_with s [] = true
starts_with [] (d ∷ p) = false
starts_with (c ∷ s) (d ∷ p) = (c == d) && starts_with s p

unfoldable pub contains : Text → Text → Bool
unfolding starts_with
contains [] p = starts_with [] p
contains (c ∷ s) p = starts_with (c ∷ s) p || contains s p

-- `char::is_whitespace`, as `trim` uses it.
unfoldable pub is_whitespace : ℕ → Bool
is_whitespace c =
    (leb 9 c && leb c 13)
    || (c == 32)
    || (c == 0x85)
    || (c == 0xa0)
    || (c == 0x1680)
    || (leb 0x2000 c && leb c 0x200a)
    || (c == 0x2028)
    || (c == 0x2029)
    || (c == 0x202f)
    || (c == 0x205f)
    || (c == 0x3000)

trim_start : Text → Text
trim_start [] = []
trim_start (c ∷ s) = if is_whitespace c then trim_start s else c ∷ s

unfoldable pub trim : Text → Text
unfolding trim_start is_whitespace
trim s = reverse (trim_start (reverse (trim_start s)))

reverse_aux-snoc : (d : ℕ) (s acc : Text) → reverse_aux (s ++ d ∷ []) acc ≡ d ∷ reverse_aux s acc
reverse_aux-snoc d [] acc = refl
reverse_aux-snoc d (c ∷ s) acc = reverse_aux-snoc d s (c ∷ acc)

reverse_aux_twice : (s acc t : Text) → reverse_aux (reverse_aux s acc) t ≡ reverse_aux acc (s ++ t)
reverse_aux_twice [] acc t = refl
reverse_aux_twice (c ∷ s) acc t = reverse_aux_twice s (c ∷ acc) t

-- Nothing is trimmed between two characters that are no white space.
pub trim_framed :
    (c d : ℕ) (s : Text)
    → is_whitespace c ≡ false
    → is_whitespace d ≡ false
    → trim (c ∷ (s ++ d ∷ [])) ≡ c ∷ (s ++ d ∷ [])
unfolding trim trim_start
trim_framed c d s h k =
    rw (h, reverse_aux-snoc d s (c ∷ []), k) (reverse_aux_twice s (c ∷ []) (d ∷ []))

-- `trim_end_matches('/')`, and `rtrim` by any character.
drop_while : ℕ → Text → Text
drop_while k [] = []
drop_while k (c ∷ s) = if c == k then drop_while k s else c ∷ s

unfoldable pub trim_end_matches : ℕ → Text → Text
unfolding drop_while
trim_end_matches k s = reverse (drop_while k (reverse s))

-- `s.split(k)`: at least one piece.
abbrev pub split_first : ℕ → List Text → List Text
split_first c [] = (c ∷ []) ∷ []
split_first c (p ∷ ps) = (c ∷ p) ∷ ps

unfoldable pub split : ℕ → Text → List Text
split k [] = [] ∷ []
split k (c ∷ s) = if c == k then [] ∷ split k s else split_first c (split k s)

-- `parts.join(sep)`.
unfoldable pub join : Text → List Text → Text
join sep [] = []
join sep (p ∷ []) = p
join sep (p ∷ q ∷ ps) = p ++ (sep ++ join sep (q ∷ ps))

-- Decimal digits, with fuel above the number of digits: a number is below ten to itself.
digits_from : ℕ → ℕ → Text → Text
digits_from zero n acc = acc
digits_from (suc f) n acc =
    let rest = digits_from f (n / 10) ((b'0' + n % 10) ∷ acc) in
    if n / 10 == 0 then (b'0' + n % 10) ∷ acc else rest

-- A `u64` has at most twenty digits.
unfoldable pub decimal : ℕ → Text
unfolding digits_from
decimal n = digits_from 20 n []
