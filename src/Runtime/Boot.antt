-- ===== src/Runtime/Boot.antt =====
-- crates/runtime/src/module.rs, lib.rs and runtime.rs: modules over a host, their registry, and the
-- boot of the modules that a role selects. What a module does to the host is a field of the module.
pub mod Outcome
pub mod Ends
use aipowergateway.Prelude.{
  ℕ, Bool, true, false, not, Option, none, some, List, [], ◌∷◌, ◌++◌, if◌then◌else◌, find,
  filter_map, unwrap_or, Result, ok, err, ◌>>=◌,
}
use mathlib.Core.Option
use aipowergateway.Prelude.Text.{Text, text}
use aipowergateway.Prelude.Map.{Map, lookup, insert, contains_key}
use aipowergateway.Json.{Value, obj, end, get, as_str, get_array}
use aipowergateway.Runtime.Error.{
  RuntimeError, duplicate_module, missing_module, config_error, display,
}
use aipowergateway.Runtime.Order.{Failure, failed, panicked, topo_sort}
use aipowergateway.Runtime.Config.{deep_merge}

-- `apply` is given the merged configuration and the host.
pub record Module (H : Type 0) : Type 0 where
  pub name : Text
  pub requires : List Text
  pub optional : Bool
  pub default_config : Value
  pub apply : Value → H → H × Option RuntimeError

abbrev pub ModuleRegistry : Type 0 → Type 0
ModuleRegistry H = Map (Module H)

pub data Role : Type 0 where
  server client : Role
  custom : Text → Role

unfoldable pub default_modules : Role → List Text
default_modules server =
    text "lan-share-server"
    ∷ text "lan-auth"
    ∷ text "lan-member-registry"
    ∷ text "lan-usage"
    ∷ text "lan-discovery-broadcast"
    ∷ text "lan-web-console"
    ∷ text "coord-client"
    ∷ []
default_modules client =
    text "lan-discovery-client"
    ∷ text "lan-share-client"
    ∷ text "lan-identity"
    ∷ text "lan-usage-view"
    ∷ text "coord-client"
    ∷ []
default_modules (custom id) = []

pub record BootResult (H : Type 0) : Type 0 where
  pub host : H
  pub booted : List Text
  pub skipped : List (Text × Text)

-- The modules of a custom role stand in the overrides.
unfoldable pub wanted : Role → Value → Result (List Text) RuntimeError
unfolding default_modules
wanted (custom id) overrides = elim (get_array (text "modules") overrides) [
  | none ↦ err (config_error (text "custom role " ++ (id ++ text ": missing modules list")))
  | some list ↦ ok (filter_map as_str list)
]
wanted role overrides = ok (default_modules role)

unfoldable pub merge_module_config : Value → Value → Text → Value
unfolding deep_merge
merge_module_config default overrides name =
    deep_merge default (unwrap_or (get name overrides) (obj end))

module _ {H : Type 0} where
  unfoldable pub register : Module H → ModuleRegistry H → Result (ModuleRegistry H) RuntimeError
  unfolding lookup insert
  register m r =
      if contains_key m.name r then err (duplicate_module m.name) else ok (insert m.name m r)

  abbrev pub requires_of : ModuleRegistry H → Text → Option (List Text)
  requires_of r name = Option.map (λ (m : Module H). m.requires) (lookup name r)

  -- The loop over the order, with what is booted and what is skipped so far. The host that a module
  -- leaves is kept when the boot fails.
  unfoldable pub boot_each :
      ModuleRegistry H
      → Value
      → List Text
      → H
      → List Text
      → List (Text × Text)
      → H × Result (BootResult H) Failure
  unfolding lookup merge_module_config display
  boot_each r overrides [] h booted skipped =
      (h, ok (record { host = h; booted = booted; skipped = skipped }))
  boot_each r overrides (name ∷ rest) h booted skipped = elim (lookup name r) [
    | none ↦ (h, err panicked)
    | some m ↦
        let (h', outcome) = m.apply (merge_module_config m.default_config overrides name) h in
        elim outcome [
          | none ↦ boot_each r overrides rest h' (booted ++ name ∷ []) skipped
          | some e ↦ elim m.optional [
            | true ↦ boot_each r overrides rest h' booted (skipped ++ (name, display e) ∷ [])
            | false ↦ (h', err (failed e))
          ]
        ]
  ]

  unfoldable pub boot : ModuleRegistry H → Role → Value → H → H × Result (BootResult H) Failure
  unfolding wanted lookup topo_sort boot_each
  boot r role overrides h = elim (wanted role overrides) [
    | err e ↦ (h, err (failed e))
    | ok want ↦ elim (find (λ name. not (contains_key name r)) want) [
      | some name ↦ (h, err (failed (missing_module name)))
      | none ↦ elim (topo_sort (requires_of r) want) [
        | err e ↦ (h, err e)
        | ok order ↦ boot_each r overrides order h [] []
      ]
    ]
  ]
