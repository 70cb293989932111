-- ===== src/Runtime/Config.antt =====
-- crates/runtime/src/config.rs: configuration values, their deep merge and their redaction.
pub mod Merged
pub mod Redacted
use aipowergateway.Prelude.{
  Bool, true, false, Option, none, some, List, [], ◌∷◌, ◌&&◌, if◌then◌else◌, is_some, ◌==◌,
}
use aipowergateway.Prelude.Text.{Text, split}
use aipowergateway.Json.{
  Value, null, bool, obj, Fields, end, field, get, get_field, set_field, is_null,
}

pub data Sensitivity : Type 0 where
  normal secret_value : Sensitivity

-- A declared key; no function reads its role.
pub record ConfigField : Type 0 where
  pub key : Text
  pub default : Value
  pub sensitivity : Sensitivity
  pub role : Text

abbrev pub new : Text → Value → Text → ConfigField
new key default role = record { key = key; default = default; sensitivity = normal; role = role }

abbrev pub secret : ConfigField → ConfigField
secret f = record f { sensitivity = secret_value }

abbrev pub is_object : Value → Bool
is_object (obj fs) = true
is_object _ = false

-- The loop over the overrides writes one key at a time into the target.
unfoldable mutual
  unfolding get_field set_field

  pub deep_merge : Value → Value → Value
  deep_merge target (obj o) = elim target [ obj t ↦ obj (merge_fields t o) | other ↦ other ]
  deep_merge target overrides = target

  pub merge_fields : Fields → Fields → Fields
  merge_fields t end = t
  merge_fields t (field k v o) =
      merge_fields
        (set_field k
          (elim (get_field k t) [
            | none ↦ v
            | some existing ↦ if is_object existing && is_object v then deep_merge existing v else v
          ])
          t)
        o

-- The descent of `set_path` along the parts of the path: every part before the last has to be an
-- object that is there.
unfoldable pub set_parts : List Text → Value → Value → Value
unfolding get_field set_field
set_parts [] value target = target
set_parts (p ∷ []) value (obj fs) = obj (set_field p value fs)
set_parts (p ∷ []) value target = target
set_parts (p ∷ q ∷ ps) value (obj fs) = elim (get_field p fs) [
  | some (obj gs) ↦ obj (set_field p (set_parts (q ∷ ps) value (obj gs)) fs)
  | _ ↦ obj fs
]
set_parts (p ∷ q ∷ ps) value target = target

unfoldable pub set_path : Value → Text → Value → Value
unfolding set_parts split
set_path target path value = set_parts (split b'.' path) value target

-- The defaults of the keys that are missing at the top, and then the overrides.
unfoldable pub with_defaults : List ConfigField → Value → Value
unfolding get_field set_path
with_defaults [] out = out
with_defaults (f ∷ fs) out = elim (get f.key out) [
  | none ↦ with_defaults fs (set_path out f.key f.default)
  | some v ↦ with_defaults fs out
]

unfoldable pub merge : List ConfigField → Value → Value → Value
unfolding with_defaults deep_merge
merge fields base overrides = deep_merge (with_defaults fields base) overrides

-- The value that stands for a secret.
abbrev pub hide : Value → Value
hide v = if is_null v then null else bool true

abbrev pub is_secret : ConfigField → Bool
is_secret f = elim f.sensitivity [ secret_value ↦ true | normal ↦ false ]

abbrev pub hide_field : Text → Value → Value
hide_field k (obj fs) = elim (get_field k fs) [
  | none ↦ obj fs
  | some v ↦ obj (set_field k (hide v) fs)
]
hide_field k v = v

unfoldable pub redact : List ConfigField → Value → Value
redact [] out = out
redact (f ∷ fs) out = if is_secret f then redact fs (hide_field f.key out) else redact fs out
