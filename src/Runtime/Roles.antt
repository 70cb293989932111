-- ===== src/Runtime/Roles.antt =====
-- crates/runtime/src/roles.rs: the role profiles, built in and of the user.
pub mod Find
pub mod Edit
pub mod Delete
pub mod Enabled
use aipowergateway.Prelude.{
  ℕ, Bool, true, false, not, Option, none, some, List, [], ◌∷◌, ◌++◌, ◌&&◌, ◌||◌, ◌==◌, leb,
  if◌then◌else◌, find, filter_map, map, is_nil, Result, ok, err, ◌>>=◌,
}
use mathlib.Core.Option
use aipowergateway.Prelude.Text.{Text, text, text_eq, text_le}
use aipowergateway.Prelude.Map.{Map, lookup, insert, remove, keys}
use aipowergateway.Prelude.Sort.{sort_by}
use aipowergateway.Json.{Value, obj, end}
use aipowergateway.Runtime.Error.{RuntimeError, role_error, other}
use aipowergateway.Runtime.Boot.{server, client, default_modules}

pub data Trust : Type 0 where
  system user : Trust

pub record ModuleEntry : Type 0 where
  pub enabled : Bool
  pub config : Value

pub record RoleProfile : Type 0 where
  pub id : Text
  pub name : Option Text
  pub modules : Map ModuleEntry
  pub base : Option Text

abbrev default_entries : List Text → Map ModuleEntry → Map ModuleEntry
default_entries [] m = m
default_entries (n ∷ ns) m =
    default_entries ns (insert n (record { enabled = true; config = obj end }) m)

unfoldable pub builtin_server : RoleProfile
unfolding default_modules insert
builtin_server = record {
  id = text "server";
  name = some (text "内置组长");
  modules = default_entries (default_modules server) [];
  base = none;
}

unfoldable pub builtin_client : RoleProfile
unfolding default_modules insert
builtin_client = record {
  id = text "client";
  name = some (text "内置组员");
  modules = default_entries (default_modules client) [];
  base = none;
}

-- `is_ascii_lowercase` or `is_ascii_digit`.
abbrev pub is_id_start : ℕ → Bool
is_id_start c = (leb b'a' c && leb c b'z') || (leb b'0' c && leb c b'9')

unfoldable pub all_id : Text → Bool
all_id [] = true
all_id (c ∷ s) = (is_id_start c || (c == b'-')) && all_id s

unfoldable pub validate_id : Text → Bool
unfolding all_id
validate_id [] = false
validate_id (c ∷ s) = if not (is_id_start c) then false else all_id (c ∷ s)

-- The directories under `roles`, each with the profile that serde reads from its role.json, if it
-- reads one. The file system is no code of this repository: its errors, and what it leaves behind
-- with one, are parameters. So is what `Path::join` makes of an id: `locate` is the name of the
-- directory under `roles` that the path is, `none` if it is `roles` itself or any other path, and
-- `remove_path` is what is left of the directories when such a path is removed, if it exists.
abbrev pub RoleDirs : Type 0
RoleDirs = Map (Option RoleProfile)

pub record RoleDisk : Type 0 where
  pub create_dir : Text → Option Text
  pub to_json : RoleProfile → Option Text
  pub write : Option RoleProfile → RoleProfile → Option Text × Option RoleProfile
  pub remove_dir : Text → Option RoleProfile → Option (Text × Option RoleProfile)
  pub locate : Text → Option Text
  pub remove_path : Text → RoleDirs → Option Text × RoleDirs

abbrev pub builtin_roles : List RoleProfile
builtin_roles = builtin_server ∷ builtin_client ∷ []

-- A directory without a readable profile is listed by its name.
abbrev pub profile_of : Text × Option RoleProfile → RoleProfile
profile_of (id, some p) = p
profile_of (id, none) = record { id = id; name = none; modules = []; base = none }

unfoldable pub user_roles : RoleDirs → List RoleProfile
unfolding text_le sort_by
user_roles dirs = sort_by (λ a b. text_le a.id b.id) (map profile_of dirs)

unfoldable pub all : RoleDirs → List (RoleProfile × Trust)
unfolding user_roles builtin_server builtin_client
all dirs = map (λ r. (r, system)) builtin_roles ++ map (λ r. (r, user)) (user_roles dirs)

unfoldable pub find_role : RoleDirs → Text → Option (RoleProfile × Trust)
unfolding all text_eq
find_role dirs id = find (λ x. text_eq x.0.id id) (all dirs)

-- `ROLE_ID_RE`
abbrev pub role_id_re : Text
role_id_re = text "^[a-z0-9][a-z0-9-]*$"

abbrev invalid_id : Text → RuntimeError
invalid_id id =
    role_error
      (text "invalid role id: " ++ (id ++ (text " (must match " ++ (role_id_re ++ text ")"))))

abbrev read_only : Text → RuntimeError
read_only id =
    role_error (text "builtin role " ++ (id ++ text " is read-only; clone it to customize"))

module _ (disk : RoleDisk) where
  -- The id of the profile is taken for the name of its directory.
  unfoldable pub save_user_role : RoleProfile → RoleDirs → RoleDirs × Option RuntimeError
  unfolding lookup insert
  save_user_role p dirs = elim (disk.create_dir p.id) [
    | some e ↦ (dirs, some (other (text "role dir: " ++ e)))
    | none ↦
        let old = lookup p.id dirs >>= (λ file. file) in
        elim (disk.to_json p) [
          | some e ↦ (insert p.id old dirs, some (other (text "role json: " ++ e)))
          | none ↦
              let (fault, file) = disk.write old p in
              (
                insert p.id file dirs,
                Option.map (λ (e : Text). other (text "role write: " ++ e)) fault,
              )
        ]
  ]

  -- The role that is returned when it has been saved.
  abbrev saved : RoleProfile → RoleDirs → RoleDirs × Result RoleProfile RuntimeError
  saved p dirs =
      let (dirs', fault) = save_user_role p dirs in
      (dirs', elim fault [ none ↦ ok p | some e ↦ err e ])

  unfoldable pub clone_role : Text → Text → RoleDirs → RoleDirs × Result RoleProfile RuntimeError
  unfolding validate_id find_role save_user_role text_eq
  clone_role from to dirs =
      if not (validate_id to) then (dirs, err (invalid_id to)) else elim (find_role dirs from) [
        | none ↦ (dirs, err (role_error (text "source role not found: " ++ from)))
        | some src ↦
            saved
              (record {
                id = to;
                name = some (
                    if text_eq from (text "server")
                    then text "自定义组长"
                    else if text_eq from (text "client")
                    then text "自定义组员"
                    else to);
                modules = src.0.modules;
                base = some from;
              })
              dirs
      ]

  unfoldable pub new_role : Text → RoleDirs → RoleDirs × Result RoleProfile RuntimeError
  unfolding validate_id find_role save_user_role
  new_role id dirs =
      if not (validate_id id) then (dirs, err (invalid_id id)) else elim (find_role dirs id) [
        | some x ↦ (dirs, err (role_error (text "role already exists: " ++ id)))
        | none ↦ saved (record { id = id; name = some id; modules = []; base = none }) dirs
      ]

  -- The id is not validated.
  unfoldable pub delete_role : Text → RoleDirs → RoleDirs × Option RuntimeError
  unfolding find_role lookup insert remove
  delete_role id dirs = elim (find_role dirs id) [
    | some (p, system) ↦ (dirs, some (read_only id))
    | _ ↦ elim (disk.locate id) [
      | none ↦
          let (fault, left) = disk.remove_path id dirs in
          (left, Option.map (λ (e : Text). other (text "role rm: " ++ e)) fault)
      | some name ↦ elim (lookup name dirs) [
        | none ↦ (dirs, none)
        | some file ↦ elim (disk.remove_dir name file) [
          | none ↦ (remove name dirs, none)
          | some (e, left) ↦ (insert name left dirs, some (other (text "role rm: " ++ e)))
        ]
      ]
    ]
  ]

  unfoldable pub edit_role :
      Text → Map ModuleEntry → RoleDirs → RoleDirs × Result RoleProfile RuntimeError
  unfolding find_role save_user_role
  edit_role id modules dirs = elim (find_role dirs id) [
    | none ↦ (dirs, err (role_error (text "role not found: " ++ id)))
    | some (p, system) ↦ (dirs, err (read_only id))
    | some (p, user) ↦ saved (record p { modules = modules }) dirs
  ]

-- The loop that puts the entries of a profile over those collected so far.
unfoldable pub put_all : Map ModuleEntry → Map Bool → Map Bool
unfolding insert
put_all [] merged = merged
put_all ((m, e) ∷ es) merged = put_all es (insert m e.enabled merged)

unfoldable pub inherited : RoleDirs → RoleProfile → Map Bool
unfolding find_role put_all
inherited dirs p = elim p.base [
  | none ↦ []
  | some base ↦ elim (find_role dirs base) [ none ↦ [] | some x ↦ put_all x.0.modules [] ]
]

unfoldable pub merged_modules : RoleDirs → RoleProfile → Map Bool
unfolding inherited put_all
merged_modules dirs p = put_all p.modules (inherited dirs p)

abbrev pub enabled_key : Text × Bool → Option Text
enabled_key (m, true) = some m
enabled_key (m, false) = none

unfoldable pub enabled_modules : RoleDirs → Text → Result (List Text) RuntimeError
unfolding find_role merged_modules default_modules text_eq text_le sort_by
enabled_modules dirs id = elim (find_role dirs id) [
  | none ↦ err (role_error (text "role not found: " ++ id))
  | some (p, trust) ↦
      let out = sort_by text_le (filter_map enabled_key (merged_modules dirs p)) in
      elim trust [
        | user ↦ ok out
        | system ↦
            if is_nil out
            then ok (
                if text_eq id (text "server")
                then default_modules server
                else default_modules client)
            else ok out
      ]
]
