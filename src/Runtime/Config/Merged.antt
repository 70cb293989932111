-- ===== src/Runtime/Config/Merged.antt =====
-- What a deep merge and a redaction leave under each path.
use aipowergateway.Prelude.{
  ◌≡◌, refl, sym, ◌∙◌, ap, inl, inr, Bool, true, false, Option, none, some, List, [], ◌∷◌, ◌&&◌,
  if◌then◌else◌, arith, ◌>>=◌, Bool-cases, Option-cases, subst,
}
use aipowergateway.Prelude.Text.{Text, text_eq, text_eq_iff}
use aipowergateway.Json.{
  Value, null, bool, unsigned, negative, float, str, arr, obj, Fields, end, field, get, get_field,
  set_field,
}
use aipowergateway.Runtime.Config.{is_object, deep_merge, merge_fields}

pub get_field-set_field :
    (k j : Text) (v : Value) (fs : Fields)
    → get_field j (set_field k v fs) ≡ (if text_eq k j then some v else get_field j fs)
unfolding get_field set_field
get_field-set_field k j v end = refl
get_field-set_field k j v (field i w fs) =
    ground (arith, text_eq_iff k j, text_eq_iff i k, text_eq_iff i j, get_field-set_field k j v fs)

-- No object of the value lists a key twice.
unfoldable mutual
  unfolding get_field

  pub IsUnique : Value → Type 0
  IsUnique (obj fs) = HasUniqueFields fs
  IsUnique _ = Unit

  pub HasUniqueFields : Fields → Type 0
  HasUniqueFields end = Unit
  HasUniqueFields (field k v fs) = (get_field k fs ≡ none) × IsUnique v × HasUniqueFields fs

-- The value of a key after a merge.
abbrev merged : Option Value → Option Value → Option Value
merged e none = e
merged none (some v) = some v
merged (some e) (some v) = some (if is_object e && is_object v then deep_merge e v else v)

abbrev combine : Option Value → Value → Value
combine e v = elim e [
  | none ↦ v
  | some existing ↦ if is_object existing && is_object v then deep_merge existing v else v
]

merged-combine : (e : Option Value) (v : Value) → merged e (some v) ≡ some (combine e v)
merged-combine none v = refl
merged-combine (some e) v = refl

get_field-merge_fields :
    (k : Text) (t o : Fields)
    → HasUniqueFields o
    → get_field k (merge_fields t o) ≡ merged (get_field k t) (get_field k o)
unfolding merge_fields get_field HasUniqueFields
get_field-merge_fields k t end u = refl
get_field-merge_fields k t (field j v o) (new, uv, u) =
    let x = combine (get_field j t) v in
    let here = get_field-set_field j k x t in
    get_field-merge_fields k (set_field j x t) o u ∙ elim (Bool-cases (text_eq j k)) [
      | inl e ↦
          let same = (text_eq_iff j k).0 e in
          let absent : get_field k o ≡ none = subst (λ z. get_field z o ≡ none) same new in
          rw (here, absent, e, merged-combine (get_field k t) v)
            (ap (λ z. some (combine (get_field z t) v)) same)
      | inr e ↦ rw (here, e) refl
    ]

some_inj : {v w : Value} → Path (Option Value) (some v) (some w) → v ≡ w
some_inj p = cc

get_field-IsUnique :
    (k : Text) (fs : Fields) (v : Value) → HasUniqueFields fs → get_field k fs ≡ some v → IsUnique v
unfolding get_field HasUniqueFields
get_field-IsUnique k end v u h = cc
get_field-IsUnique k (field j w fs) v (new, uw, u) h = elim (Bool-cases (text_eq j k)) [
  | inl e ↦
      let same : Path (Option Value) (some w) (some v) = rw (e) at h in
      subst IsUnique (some_inj same) uw
  | inr e ↦ get_field-IsUnique k fs v u (rw (e) at h)
]

object_clash :
    (o : Fields) (v : Value) → Path (Option Value) (some (obj o)) (some v) → is_object v ≡ false → ⊥
object_clash o v h k =
    let same = subst (λ (x : Value). is_object x ≡ false) (sym (some_inj h)) k in cc

-- The value at a path of keys, and whether the path leaves the overrides at a missing key.
abbrev pub at : List Text → Value → Option Value
at [] v = some v
at (k ∷ ks) v = get k v >>= at ks

abbrev pub leaves : List Text → Value → Bool
leaves [] v = false
leaves (k ∷ ks) v = is_object v && (elim (get k v) [ none ↦ true | some w ↦ leaves ks w ])

get-none : (k : Text) (v : Value) → is_object v ≡ false → get k v ≡ none
get-none k (obj fs) h = cc
get-none k null h = refl
get-none k (bool b) h = refl
get-none k (unsigned n) h = refl
get-none k (negative n) h = refl
get-none k (float n) h = refl
get-none k (str s) h = refl
get-none k (arr a) h = refl

leaves-none : (p : List Text) (w : Value) → leaves p w ≡ true → at p w ≡ none
leaves-none [] w h = cc
leaves-none (k ∷ ks) w h = elim (Option-cases (get k w)) [
  | inl e ↦ rw (e) refl
  | inr (v, e) ↦ rw (e) (leaves-none ks v (ground arith))
]

at-none : (p : List Text) (e w : Value) → leaves p w ≡ true → is_object e ≡ false → at p e ≡ none
at-none [] e w h k = cc
at-none (j ∷ js) e w h k = rw (get-none j e k) refl

-- Both promises at one key that has a value on either side.
abbrev Promise : List Text → Value → Value → Value → Type 0
Promise p e w x =
    ((v : Value) → at p w ≡ some v → is_object v ≡ false → at p x ≡ some v)
    × (leaves p w ≡ true → at p x ≡ at p e)

replaced : (p : List Text) (e w : Value) → is_object e ≡ false → Promise p e w w
replaced p e w k = (λ v h n. h, λ h. leaves-none p w h ∙ sym (at-none p e w h k))

replacing : (p : List Text) (e w : Value) → is_object w ≡ false → Promise p e w w
replacing [] e w k = (λ v h n. h, λ h. cc)
replacing (j ∷ js) e w k = (λ v h n. h, λ h. absurd (apart _ (is_object w) k h))
  where
    apart : (b c : Bool) → c ≡ false → (c && b) ≡ true → ⊥
    apart b c e h = ground arith

merged-Promise :
    (p : List Text) (e w : Value)
    → ((t o : Fields) → HasUniqueFields o → Promise p (obj t) (obj o) (obj (merge_fields t o)))
    → IsUnique w
    → Promise p e w (if is_object e && is_object w then deep_merge e w else w)
unfolding deep_merge IsUnique
merged-Promise p (obj t) (obj o) below u = below t o u
merged-Promise p (obj t) w below u = replacing p (obj t) w refl
merged-Promise p e w below u = replaced p e w refl

-- A deep merge keeps both promises at every path: an override that is no object wins, and where
-- the path leaves the overrides at a missing key the target keeps what it has.
pub deep_merge-at :
    (p : List Text) (t o : Fields)
    → HasUniqueFields o
    → ((v : Value)
        → at p (obj o) ≡ some v
        → is_object v ≡ false
        → at p (deep_merge (obj t) (obj o)) ≡ some v)
      × (leaves p (obj o) ≡ true → at p (deep_merge (obj t) (obj o)) ≡ at p (obj t))
unfolding deep_merge
deep_merge-at [] t o u = (
  λ v h k.
      let same : Path (Option Value) (some (obj o)) (some v) = h in
      absurd (object_clash o v same k),
  λ h. cc,
)
deep_merge-at (k ∷ ks) t o u =
    rw (get_field-merge_fields k t o u) (elim (Option-cases (get_field k o)) [
      | inl absent ↦ rw (absent) (λ v h n. cc, λ h. refl)
      | inr (w, found) ↦
          let below = get_field-IsUnique k o w u found in
          rw (found) (elim (Option-cases (get_field k t)) [
            | inl new ↦ rw (new) (λ v h n. h, λ h. leaves-none ks w h)
            | inr (e, old) ↦ rw (old) (merged-Promise ks e w (deep_merge-at ks) below)
          ])
    ])
