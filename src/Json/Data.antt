-- ===== src/Json/Data.antt =====
-- The values: the type of arrays and that of objects are part of the block.
use aipowergateway.Prelude.{
  ℕ, ◌≡◌, refl, Bool, true, false, Option, none, some, List, [], ◌∷◌, if◌then◌else◌, ◌>>=◌,
}
use aipowergateway.Prelude.Text.{Text, text_eq}

-- A number is a `u64`, a negative `i64` (here -(n + 1)), or the bits of an `f64`.
mutual
  pub data Value : Type 0 where
    null : Value
    bool : Bool → Value
    unsigned negative float : ℕ → Value
    str : Text → Value
    arr : Elems → Value
    obj : Fields → Value

  pub data Elems : Type 0 where
    nil : Elems
    cons : Value → Elems → Elems

  pub data Fields : Type 0 where
    end : Fields
    field : Text → Value → Fields → Fields

abbrev pub elems : Elems → List Value
elems nil = []
elems (cons v vs) = v ∷ elems vs

abbrev pub of_elems : List Value → Elems
of_elems [] = nil
of_elems (v ∷ vs) = cons v (of_elems vs)

pub elems-of_elems : (vs : List Value) → elems (of_elems vs) ≡ vs
elems-of_elems [] = refl
elems-of_elems (v ∷ vs) = rw (elems-of_elems vs)

unfoldable pub get_field : Text → Fields → Option Value
unfolding text_eq
get_field k end = none
get_field k (field j v fs) = if text_eq j k then some v else get_field k fs

-- `map.insert(k, v)`: a key that is there keeps its place.
unfoldable pub set_field : Text → Value → Fields → Fields
unfolding text_eq
set_field k v end = field k v end
set_field k v (field j w fs) = if text_eq j k then field k v fs else field j w (set_field k v fs)

-- `map.remove(k)`.
unfoldable pub remove_field : Text → Fields → Fields
unfolding text_eq
remove_field k end = end
remove_field k (field j w fs) =
    if text_eq j k then remove_field k fs else field j w (remove_field k fs)

-- `v.get(k)`: nothing on a value that is no object.
abbrev pub get : Text → Value → Option Value
get k (obj fs) = get_field k fs
get k _ = none

abbrev pub as_str : Value → Option Text
as_str (str s) = some s
as_str _ = none

abbrev pub as_bool : Value → Option Bool
as_bool (bool b) = some b
as_bool _ = none

abbrev pub as_u64 : Value → Option ℕ
as_u64 (unsigned n) = some n
as_u64 _ = none

abbrev pub as_array : Value → Option (List Value)
as_array (arr vs) = some (elems vs)
as_array _ = none

abbrev pub is_null : Value → Bool
is_null null = true
is_null _ = false

-- `v.get(k).and_then(|v| v.as_str())`, and so on.
abbrev pub get_str : Text → Value → Option Text
get_str k v = get k v >>= as_str

abbrev pub get_bool : Text → Value → Option Bool
get_bool k v = get k v >>= as_bool

abbrev pub get_u64 : Text → Value → Option ℕ
get_u64 k v = get k v >>= as_u64

abbrev pub get_array : Text → Value → Option (List Value)
get_array k v = get k v >>= as_array
