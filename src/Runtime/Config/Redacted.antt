-- ===== src/Runtime/Config/Redacted.antt =====
-- What `redact` leaves under each key.
use aipowergateway.Prelude.{
  ◌≡◌, refl, ◌∙◌, subst, inl, inr, Option, none, some, List, [], ◌∷◌, ◌&&◌, if◌then◌else◌, arith,
  any, Bool-cases, Option-cases,
}
use mathlib.Core.Option
use aipowergateway.Prelude.Text.{Text, text_eq, text_eq_iff}
use aipowergateway.Json.{
  Value, null, bool, unsigned, negative, float, str, arr, obj, get, get_field,
}
use aipowergateway.Runtime.Config.{ConfigField, hide, is_secret, hide_field, redact}
use aipowergateway.Runtime.Config.Merged.{get_field-set_field}

hide_twice : (v : Value) → hide (hide v) ≡ hide v
hide_twice null = refl
hide_twice (obj fs) = refl
hide_twice (bool b) = refl
hide_twice (unsigned n) = refl
hide_twice (negative n) = refl
hide_twice (float n) = refl
hide_twice (str s) = refl
hide_twice (arr a) = refl

map-hide_twice : (o : Option Value) → Option.map hide (Option.map hide o) ≡ Option.map hide o
map-hide_twice none = refl
map-hide_twice (some v) = rw (hide_twice v) refl

get-hide_field :
    (j k : Text) (v : Value)
    → get k (hide_field j v) ≡ (if text_eq j k then Option.map hide (get k v) else get k v)
get-hide_field j k (obj fs) = elim (Option-cases (get_field j fs)) [
  | inl e ↦ rw (e, hide_field) (absent e)
  | inr (w, e) ↦ rw (e, hide_field) (get_field-set_field j k (hide w) fs ∙ present w e)
]
  where
    absent :
        get_field j fs ≡ none
        → get_field k fs
          ≡ (if text_eq j k then Option.map hide (get_field k fs) else get_field k fs)
    absent e = elim (Bool-cases (text_eq j k)) [
      | inl s ↦
          let gone = subst (λ z. get_field z fs ≡ none) ((text_eq_iff j k).0 s) e in
          rw (s, gone) refl
      | inr s ↦ rw (s) refl
    ]

    present :
        (w : Value)
        → get_field j fs ≡ some w
        → (if text_eq j k then some (hide w) else get_field k fs)
          ≡ (if text_eq j k then Option.map hide (get_field k fs) else get_field k fs)
    present w e = elim (Bool-cases (text_eq j k)) [
      | inl s ↦
          let here = subst (λ z. get_field z fs ≡ some w) ((text_eq_iff j k).0 s) e in
          rw (s, here) refl
      | inr s ↦ rw (s) refl
    ]
get-hide_field j k null = ground arith
get-hide_field j k (bool b) = ground arith
get-hide_field j k (unsigned n) = ground arith
get-hide_field j k (negative n) = ground arith
get-hide_field j k (float n) = ground arith
get-hide_field j k (str s) = ground arith
get-hide_field j k (arr a) = ground arith

-- Redaction puts `null` or `true` in place of the value under each key at the top that a secret
-- field names, and leaves every other key as it was.
redact-get :
    (fields : List ConfigField) (k : Text) (v : Value)
    → get k (redact fields v) ≡ (
        if any (λ f. is_secret f && text_eq f.key k) fields
        then Option.map hide (get k v)
        else get k v)
unfolding redact
redact-get [] k v = refl
redact-get (f ∷ fs) k v = elim (Bool-cases (is_secret f)) [
  | inl e ↦ rw (e) (
      redact-get fs k (hide_field f.key v)
      ∙ rw (get-hide_field f.key k v) (elim (Bool-cases (text_eq f.key k)) [
        | inl same ↦ rw (same, map-hide_twice (get k v)) (ground arith)
        | inr other ↦ rw (other) refl
      ]))
  | inr e ↦ rw (e) (redact-get fs k v)
]
