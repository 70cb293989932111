-- ===== src/Prelude/Map.antt =====
-- A `HashMap<String, V>` as an association list. What the source leaves to the hash order
-- (`iter`, `values`, `find`) follows the list; the theorems range over every list.
use mathlib.Core.Path.{◌≡◌, refl}
use mathlib.Core.Bool.{Bool, true}
use mathlib.Core.Logic.{inl, inr}
use mathlib.Core.Option.{Option, none, some}
use mathlib.Core.Option
use mathlib.Core.List.{List, [], ◌∷◌, map}
use native.Mathlib.Omega.{arith}
use aipowergateway.Prelude.Tests.{if◌then◌else◌, is_some, Bool-cases}
use aipowergateway.Prelude.Lists.{retain, find}
use aipowergateway.Prelude.Text.{Text, text_eq, text_eq_iff, text_eq_refl}

abbrev pub Map {ℓ} : Type ℓ → Type ℓ
Map V = List (Text × V)

module _ {ℓ} {V : Type ℓ} where
  unfoldable pub lookup : Text → Map V → Option V
  unfolding text_eq
  lookup k [] = none
  lookup k ((j, v) ∷ m) = if text_eq j k then some v else lookup k m

  unfoldable pub insert : Text → V → Map V → Map V
  unfolding text_eq
  insert k v [] = (k, v) ∷ []
  insert k v ((j, w) ∷ m) = if text_eq j k then (k, v) ∷ m else (j, w) ∷ insert k v m

  unfoldable pub remove : Text → Map V → Map V
  unfolding text_eq
  remove k [] = []
  remove k ((j, w) ∷ m) = if text_eq j k then remove k m else (j, w) ∷ remove k m

  abbrev pub values : Map V → List V
  values m = map (λ e. e.1) m

  abbrev pub keys : Map V → List Text
  keys m = map (λ e. e.0) m

  -- `get_mut` followed by a write.
  unfoldable pub modify : Text → (V → V) → Map V → Map V
  unfolding text_eq
  modify k f [] = []
  modify k f ((j, w) ∷ m) = if text_eq j k then (j, f w) ∷ m else (j, w) ∷ modify k f m

  abbrev pub contains_key : Text → Map V → Bool
  contains_key k m = is_some (lookup k m)

  -- `entry(k).or_insert_with(d)` followed by a write through the reference.
  abbrev pub upsert : Text → V → (V → V) → Map V → Map V
  upsert k d f m = elim (lookup k m) [ none ↦ insert k (f d) m | some v ↦ insert k (f v) m ]

  -- No key is listed twice, as in every hash map.
  abbrev pub HasUniqueKeys : Map V → Type ℓ
  HasUniqueKeys [] = Unit
  HasUniqueKeys ((k, v) ∷ m) = (lookup k m ≡ none) × HasUniqueKeys m

  pub lookup-insert :
      (k j : Text) (v : V) (m : Map V)
      → lookup j (insert k v m) ≡ (if text_eq k j then some v else lookup j m)
  unfolding lookup insert
  lookup-insert k j v [] = refl
  lookup-insert k j v ((i, w) ∷ m) =
      ground (arith, text_eq_iff k j, text_eq_iff i k, text_eq_iff i j, lookup-insert k j v m)

  pub lookup-insert_self : (k : Text) (v : V) (m : Map V) → lookup k (insert k v m) ≡ some v
  lookup-insert_self k v m = rw (lookup-insert k k v m, text_eq_refl k)

  pub lookup-remove :
      (k j : Text) (m : Map V) → lookup j (remove k m) ≡ (if text_eq k j then none else lookup j m)
  unfolding lookup remove
  lookup-remove k j [] = ground arith
  lookup-remove k j ((i, w) ∷ m) =
      ground (arith, text_eq_iff k j, text_eq_iff i k, text_eq_iff i j, lookup-remove k j m)

  pub lookup-modify :
      (k j : Text) (f : V → V) (m : Map V)
      → lookup j (modify k f m) ≡ (if text_eq k j then Option.map f (lookup j m) else lookup j m)
  unfolding lookup modify
  lookup-modify k j f [] = ground arith
  lookup-modify k j f ((i, w) ∷ m) =
      ground (arith, text_eq_iff k j, text_eq_iff i k, text_eq_iff i j, lookup-modify k j f m)

  pub insert-HasUniqueKeys :
      (k : Text) (v : V) (m : Map V) → HasUniqueKeys m → HasUniqueKeys (insert k v m)
  unfolding lookup insert
  insert-HasUniqueKeys k v [] h = ground arith
  insert-HasUniqueKeys k v ((i, w) ∷ m) h = ground (
    arith,
    insert-HasUniqueKeys k v m h.1,
    lookup-insert k i v m,
    text_eq_iff i k,
    text_eq_iff k i,
  )

  pub remove-HasUniqueKeys : (k : Text) (m : Map V) → HasUniqueKeys m → HasUniqueKeys (remove k m)
  unfolding lookup remove
  remove-HasUniqueKeys k [] h = ground arith
  remove-HasUniqueKeys k ((i, w) ∷ m) h =
      ground (arith, remove-HasUniqueKeys k m h.1, lookup-remove k i m)

  pub modify-HasUniqueKeys :
      (k : Text) (f : V → V) (m : Map V) → HasUniqueKeys m → HasUniqueKeys (modify k f m)
  unfolding lookup modify
  modify-HasUniqueKeys k f [] h = ground arith
  modify-HasUniqueKeys k f ((i, w) ∷ m) h =
      ground (arith, modify-HasUniqueKeys k f m h.1, lookup-modify k i f m)

  -- A value that passes the test, put into a map where none does, is the one that is found.
  pub find-insert :
      (p : V → Bool) (k : Text) (v : V) (m : Map V)
      → find p (values m) ≡ none
      → p v ≡ true
      → find p (values (insert k v m)) ≡ some v
  unfolding insert
  find-insert p k v [] h e = rw e
  find-insert p k v ((j, w) ∷ m) h e = ground (arith, find-insert p k v m)

  -- What is found by a test stands under some key.
  pub find-lookup :
      (p : V → Bool) (m : Map V) (v : V)
      → HasUniqueKeys m
      → find p (values m) ≡ some v
      → (k : Text) × (lookup k m ≡ some v) × (p v ≡ true)
  unfolding lookup
  find-lookup p [] v u h = cc
  find-lookup p ((j, w) ∷ m) v u h = elim (Bool-cases (p w)) [
    | inl e ↦ (j, ground (arith, text_eq_refl j), ground arith)
    | inr e ↦
        let (k, found, holds) = find-lookup p m v u.1 (ground arith) in
        (k, ground (arith, text_eq_iff j k), holds)
  ]

module _ {V : Type 0} (keep : Text × V → Bool) where
  lookup-retain-none : (k : Text) (m : Map V) → lookup k m ≡ none → lookup k (retain keep m) ≡ none
  unfolding lookup
  lookup-retain-none k [] h = refl
  lookup-retain-none k ((j, w) ∷ m) h = ground (arith, lookup-retain-none k m)

  pub lookup-retain :
      (k : Text) (m : Map V) (v : V)
      → HasUniqueKeys m
      → lookup k m ≡ some v
      → lookup k (retain keep m) ≡ (if keep (k, v) then some v else none)
  unfolding lookup
  lookup-retain k [] v u h = cc
  lookup-retain k ((j, w) ∷ m) v u h =
      ground
        (arith, text_eq_iff j k, text_eq_refl k, lookup-retain k m v u.1, lookup-retain-none k m)

  pub retain-HasUniqueKeys : (m : Map V) → HasUniqueKeys m → HasUniqueKeys (retain keep m)
  retain-HasUniqueKeys [] h = tt
  retain-HasUniqueKeys ((j, w) ∷ m) h =
      ground (arith, retain-HasUniqueKeys m h.1, lookup-retain-none j m h.0)
