-- ===== src/Runtime/Tests.antt =====
-- The theorems on the runtime at concrete modules, configurations and roles.
use aipowergateway.Prelude.{
  ◌≡◌, ◌≢◌, ◌↔◌, refl, sym, subst, ◌⊎◌, inl, inr, true, false, Option, none, some, List, [], ◌∷◌,
  ◌++◌, if◌then◌else◌, Bool-cases, ok, err, IsMember, find-IsMember, All-member, All,
}
use mathlib.Core.Option
use aipowergateway.Prelude.Text.{Text, text, text_eq, text_eq_iff, text_le}
use aipowergateway.Prelude.TextSet.{has, add, delete}
use aipowergateway.Prelude.Map.{Map, HasUniqueKeys, lookup, insert}
use aipowergateway.Prelude.Sort.{sort_by, IsSorted, IsDistinct}
use aipowergateway.Json.{Value, obj, arr, str, unsigned, field, end, of_elems, get_field}
use aipowergateway.Runtime.Error.{module_error, role_error, display}
use aipowergateway.Runtime.Order.{Failure, deps, each, visit, topo_sort}
use aipowergateway.Runtime.Order.Sorted.{IsOrdered, topo_sort-IsOrdered}
use aipowergateway.Runtime.Order.Cycles.{Needs, IsCycleError, topo_sort-ends, topo_sort-acyclic}
use aipowergateway.Runtime.Config.{deep_merge, is_object}
use aipowergateway.Runtime.Config.Merged.{at, leaves, IsUnique, deep_merge-at}
use aipowergateway.Runtime.Roles.{
  Trust, user, RoleProfile, ModuleEntry, RoleDirs, RoleDisk, find_role, clone_role, delete_role,
  enabled_modules, validate_id, builtin_server, builtin_client, all, user_roles, all_id,
}
use aipowergateway.Runtime.Roles.Edit.{IsWorking, is_builtin, clone_role-find_role}
use aipowergateway.Runtime.Roles.Delete.{delete_role-find_role}
use aipowergateway.Runtime.Roles.Enabled.{HasUniqueModules, entry_at, enabled_modules-entry_at}
use aipowergateway.Runtime.Boot.{
  Module, ModuleRegistry, default_modules, custom, BootResult, wanted, merge_module_config,
  boot_each, boot,
}
use aipowergateway.Runtime.Boot.Outcome.{Boots, Stops}
use aipowergateway.Runtime.Boot.Ends.{Planned, boot-Boots, boot-Stops}

abbrev a_name : Text
a_name = text "a"

abbrev b_name : Text
b_name = text "b"

-- `b` requires `a`.
abbrev table : Map (List Text)
table = (a_name, []) ∷ (b_name, a_name ∷ []) ∷ []

abbrev needs : Text → Option (List Text)
needs x = lookup x table

abbrev both : List Text
both = b_name ∷ a_name ∷ []

abbrev sorted : List Text
sorted = a_name ∷ b_name ∷ []

registered : (x : Text) → has x both ≡ true → needs x ≢ none
unfolding has lookup text_eq
registered x h e = elim (Bool-cases (text_eq b_name x)) [
  | inl s ↦ let gone = subst (λ z. needs z ≡ none) (sym ((text_eq_iff b_name x).0 s)) e in cc
  | inr s ↦ elim (Bool-cases (text_eq a_name x)) [
    | inl t ↦ let gone = subst (λ z. needs z ≡ none) (sym ((text_eq_iff a_name x).0 t)) e in cc
    | inr t ↦ let clash : false ≡ true = rw (s, t) at h in cc
  ]
]

topo_sort-IsOrdered_example :
    IsOrdered (deps needs both) [] sorted × ((x : Text) → has x sorted ≡ has x both)
unfolding topo_sort visit each has add delete lookup text_eq
topo_sort-IsOrdered_example = topo_sort-IsOrdered needs both sorted refl

topo_sort-ends_example :
    ((order : List Text) × (topo_sort needs both ≡ ok order))
    ⊎ ((e : Failure) × (topo_sort needs both ≡ err e) × IsCycleError needs both e)
topo_sort-ends_example = topo_sort-ends needs both registered

topo_sort-acyclic_example :
    ((order : List Text) × (topo_sort needs both ≡ ok order))
    ↔ ((c : Text) → has c both ≡ true → Needs needs both c c → ⊥)
topo_sort-acyclic_example = topo_sort-acyclic needs both registered

-- A host is the list of the modules that have run.
abbrev a_module : Module (List Text)
a_module = record {
  name = a_name;
  requires = [];
  optional = false;
  default_config = obj end;
  apply = λ config h. (h ++ a_name ∷ [], none);
}

abbrev b_module : Module (List Text)
b_module = record {
  name = b_name;
  requires = a_name ∷ [];
  optional = true;
  default_config = obj end;
  apply = λ config h. (h, some (module_error (text "boom")));
}

abbrev registry : ModuleRegistry (List Text)
registry = (b_name, b_module) ∷ (a_name, a_module) ∷ []

-- The module that fails is required here.
abbrev strict : ModuleRegistry (List Text)
strict = (b_name, record b_module { optional = false }) ∷ (a_name, a_module) ∷ []

abbrev overrides : Value
overrides = obj (field (text "modules") (arr (of_elems (str b_name ∷ str a_name ∷ []))) end)

abbrev test_role : Text
test_role = text "test"

abbrev booted_result : BootResult (List Text)
booted_result = record {
  host = a_name ∷ [];
  booted = a_name ∷ [];
  skipped = (b_name, text "module error: boom") ∷ [];
}

boot-Boots_example :
    (order : List Text) × Planned registry (custom test_role) overrides [] order
    × Boots registry overrides order []
        (a_name ∷ [])
        ((b_name, text "module error: boom") ∷ [])
        (a_name ∷ [])
    × (booted_result.host ≡ a_name ∷ [])
unfolding boot wanted topo_sort visit each has add delete lookup text_eq boot_each
    merge_module_config deep_merge get_field display
boot-Boots_example =
    boot-Boots registry (custom test_role) overrides [] (a_name ∷ []) booted_result refl

boot-Stops_example :
    (a_name ∷ [] ≡ [])
    ⊎ ((order : List Text) × Planned strict (custom test_role) overrides [] order
        × Stops strict overrides order [] (module_error (text "boom")) (a_name ∷ []))
unfolding boot wanted topo_sort visit each has add delete lookup text_eq boot_each
    merge_module_config deep_merge get_field display
boot-Stops_example =
    boot-Stops strict (custom test_role) overrides [] (a_name ∷ []) (module_error (text "boom"))
      refl

-- `{"a": {"b": 1}}` and `{"a": {"c": 2}}`.
abbrev target : Value
target = obj (field a_name (obj (field b_name (unsigned 1) end)) end)

abbrev c_name : Text
c_name = text "c"

abbrev changes : Value
changes = obj (field a_name (obj (field c_name (unsigned 2) end)) end)

deep_merge-at_example :
    ((v : Value)
      → at (a_name ∷ c_name ∷ []) changes ≡ some v
      → is_object v ≡ false
      → at (a_name ∷ c_name ∷ []) (deep_merge target changes) ≡ some v)
    × (leaves (a_name ∷ c_name ∷ []) changes ≡ true
        → at (a_name ∷ c_name ∷ []) (deep_merge target changes) ≡ at (a_name ∷ c_name ∷ []) target)
unfolding IsUnique get_field
deep_merge-at_example =
    deep_merge-at (a_name ∷ c_name ∷ []) (field a_name (obj (field b_name (unsigned 1) end)) end)
      (field a_name (obj (field c_name (unsigned 2) end)) end) (refl, (refl, tt, tt), tt)

abbrev disk : RoleDisk
disk = record {
  create_dir = λ id. none;
  to_json = λ p. none;
  write = λ old p. (none, some p);
  remove_dir = λ id file. none;
  locate = λ id. if validate_id id then some id else none;
  remove_path = λ id dirs. (none, []);
}

disk_works : IsWorking disk
unfolding validate_id
disk_works = record {
  creates = λ id. refl;
  prints = λ p. refl;
  writes = λ old p. refl;
  removes = λ id file. refl;
  locates = λ id v. rw v refl;
  whole = refl;
  clears = λ dirs. refl;
}

abbrev dev : Text
dev = text "dev"

abbrev light : Text
light = text "light"

abbrev dev_profile : RoleProfile
dev_profile = record {
  id = dev;
  name = none;
  modules = (a_name, record { enabled = false; config = obj end }) ∷ [];
  base = none;
}

abbrev dirs : RoleDirs
dirs = (dev, some dev_profile) ∷ []

clone_role-find_role_example :
    (dirs' : RoleDirs) × (p : RoleProfile) × (clone_role disk dev light dirs ≡ (dirs', ok p))
    × (find_role dirs' light ≡ some (p, user))
    × (p.modules ≡ dev_profile.modules)
    × (p.base ≡ some dev)
    × ((id : Text) → text_eq light id ≡ false → find_role dirs' id ≡ find_role dirs id)
unfolding validate_id all_id find_role all user_roles builtin_server text_eq sort_by lookup
clone_role-find_role_example =
    clone_role-find_role disk disk_works dev light dirs (dev_profile, user) (refl, tt) (refl, tt)
      refl refl refl

delete_role-find_role_example :
    (((is_builtin dev ≡ true)
        × (delete_role disk dev dirs ≡ (
          dirs,
          some (
              role_error
                (text "builtin role " ++ (dev ++ text " is read-only; clone it to customize"))),
        )))
      ⊎ ((is_builtin dev ≡ false)
          × ((dirs' : RoleDirs) × (delete_role disk dev dirs ≡ (dirs', none))
              × (find_role dirs' dev ≡ none)
              × ((other : Text)
                  → text_eq dev other ≡ false
                  → find_role dirs' other ≡ find_role dirs other))))
    × (delete_role disk [] dirs ≡ ([], none))
unfolding lookup validate_id all_id
delete_role-find_role_example =
    delete_role-find_role disk disk_works dev dirs (refl, tt) (refl, tt) refl

all_unique : All (λ (x : RoleProfile × Trust). HasUniqueKeys x.0.modules) (all dirs)
unfolding all user_roles builtin_server builtin_client lookup text_eq insert sort_by default_modules
all_unique = (
  (refl, (refl, (refl, (refl, (refl, (refl, (refl, tt))))))),
  ((refl, (refl, (refl, (refl, (refl, tt))))), ((refl, tt), tt)),
)

unique : HasUniqueModules dirs
unfolding find_role
unique id p t h =
    All-member (λ (x : RoleProfile × Trust). HasUniqueKeys x.0.modules) (all dirs) (p, t) all_unique
      (find-IsMember (λ x. text_eq x.0.id id) (all dirs) (p, t) h).0

enabled_modules-entry_at_example :
    (out : List Text) × (enabled_modules dirs dev ≡ ok out)
    × IsSorted text_le out
    × IsDistinct out
    × ((m : Text)
        → IsMember m out
          ↔ (Option.map (λ (e : ModuleEntry). e.enabled) (entry_at dirs dev_profile m) ≡ some true))
unfolding find_role all user_roles builtin_server text_eq sort_by
enabled_modules-entry_at_example = enabled_modules-entry_at dirs dev dev_profile unique refl
