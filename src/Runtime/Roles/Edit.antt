-- ===== src/Runtime/Roles/Edit.antt =====
-- What the operations on roles leave to be found, on a disk that works.
use aipowergateway.Prelude.{
  ◌≡◌, refl, sym, ◌∙◌, inl, inr, Bool, true, false, Option, none, some, [], ◌∷◌, ◌||◌,
  if◌then◌else◌, arith, Bool-cases, ok, ◌>>=◌,
}
use mathlib.Core.Option
use aipowergateway.Prelude.Text.{Text, text, text_eq, text_eq_refl}
use aipowergateway.Prelude.Map.{lookup, insert, HasUniqueKeys, lookup-insert, insert-HasUniqueKeys}
use aipowergateway.Runtime.Roles.{
  Trust, system, user, RoleProfile, RoleDirs, RoleDisk, profile_of, find_role, builtin_server,
  builtin_client, save_user_role, clone_role, validate_id,
}
use aipowergateway.Runtime.Roles.Find.{IsNamed, role_at, find_role-role_at}

insert-IsNamed :
    (p : RoleProfile) (dirs : RoleDirs) → IsNamed dirs → IsNamed (insert p.id (some p) dirs)
unfolding insert
insert-IsNamed p [] n = (refl, tt)
insert-IsNamed p ((d, f) ∷ dirs) (named, n) = elim (Bool-cases (text_eq d p.id)) [
  | inl e ↦ rw (e) (refl, n)
  | inr e ↦ rw (e) (named, insert-IsNamed p dirs n)
]

-- Every call succeeds, and serde reads back what it wrote. A valid id is the name of a directory
-- under `roles`; joining the empty one gives `roles` itself, which is removed with all it holds.
pub record IsWorking (disk : RoleDisk) : Type 0 where
  pub creates : (id : Text) → disk.create_dir id ≡ none
  pub prints : (p : RoleProfile) → disk.to_json p ≡ none
  pub writes : (old : Option RoleProfile) (p : RoleProfile) → disk.write old p ≡ (none, some p)
  pub removes : (id : Text) (f : Option RoleProfile) → disk.remove_dir id f ≡ none
  pub locates : (id : Text) → validate_id id ≡ true → disk.locate id ≡ some id
  pub whole : disk.locate [] ≡ none
  pub clears : (dirs : RoleDirs) → disk.remove_path [] dirs ≡ (none, [])

abbrev pub is_builtin : Text → Bool
is_builtin id = text_eq (text "server") id || text_eq (text "client") id

or_false : {a b : Bool} → (a || b) ≡ false → (a ≡ false) × (b ≡ false)
or_false {a} {b} h = (ground arith, ground arith)

pub same_at :
    (dirs' dirs : RoleDirs) (id : Text)
    → lookup id dirs' ≡ lookup id dirs
    → role_at dirs' id ≡ role_at dirs id
same_at dirs' dirs id e = rw (e) refl

-- The role at an id that no built-in role has.
pub role_at-user :
    (dirs : RoleDirs) (id : Text)
    → is_builtin id ≡ false
    → role_at dirs id ≡ Option.map (λ f. (profile_of (id, f), user)) (lookup id dirs)
role_at-user dirs id b =
    let s : text_eq (text "server") id ≡ false = (or_false b).0 in
    let c : text_eq (text "client") id ≡ false = (or_false b).1 in rw (s, c) refl

pub role_at-system :
    (dirs : RoleDirs) (id : Text)
    → is_builtin id ≡ true
    → (p : RoleProfile) × (role_at dirs id ≡ some (p, system))
role_at-system dirs id b = elim (Bool-cases (text_eq (text "server") id)) [
  | inl e ↦ (builtin_server, rw (e) refl)
  | inr e ↦ (builtin_client, rw (e) (rw (second e) refl))
]
  where
    second : text_eq (text "server") id ≡ false → text_eq (text "client") id ≡ true
    second e = ground arith

module _ (disk : RoleDisk) (working : IsWorking disk) where
  save_lem :
      (p : RoleProfile) (dirs : RoleDirs)
      → save_user_role disk p dirs ≡ (insert p.id (some p) dirs, none)
  unfolding save_user_role
  save_lem p dirs =
      rw
        (
          working.creates p.id,
          save_user_role,
          working.prints p,
          working.writes (lookup p.id dirs >>= (λ file. file)) p,
        )
        refl

  -- The role that was saved is found, and no other is changed.
  saved-find_role :
      (p : RoleProfile) (dirs : RoleDirs)
      → IsNamed dirs
      → HasUniqueKeys dirs
      → is_builtin p.id ≡ false
      → (find_role (insert p.id (some p) dirs) p.id ≡ some (p, user))
        × ((id : Text)
            → text_eq p.id id ≡ false
            → find_role (insert p.id (some p) dirs) id ≡ find_role dirs id)
  saved-find_role p dirs n u b =
      let n' = insert-IsNamed p dirs n in
      let u' = insert-HasUniqueKeys p.id (some p) dirs u in
      (
        find_role-role_at _ p.id n' u' ∙ own (or_false b).0 (or_false b).1,
        λ id e.
            find_role-role_at _ id n' u'
            ∙ same_at _ dirs id (rw (lookup-insert p.id id (some p) dirs, e) refl)
            ∙ sym (find_role-role_at dirs id n u),
      )
    where
      own :
          (text_eq (text "server") p.id ≡ false)
          → (text_eq (text "client") p.id ≡ false)
          → role_at (insert p.id (some p) dirs) p.id ≡ some (p, user)
      own s c = rw (s, c, lookup-insert p.id p.id (some p) dirs, text_eq_refl p.id) refl

  -- A clone under a valid id that no built-in role has succeeds: it is found with the modules of
  -- its source, which is its base, and every other role is found as before.
  pub clone_role-find_role :
      (from to : Text) (dirs : RoleDirs) (src : RoleProfile × Trust)
      → IsNamed dirs
      → HasUniqueKeys dirs
      → validate_id to ≡ true
      → is_builtin to ≡ false
      → find_role dirs from ≡ some src
      → (dirs' : RoleDirs) × (p : RoleProfile) × (clone_role disk from to dirs ≡ (dirs', ok p))
        × (find_role dirs' to ≡ some (p, user))
        × (p.modules ≡ src.0.modules)
        × (p.base ≡ some from)
        × ((id : Text) → text_eq to id ≡ false → find_role dirs' id ≡ find_role dirs id)
  unfolding clone_role
  clone_role-find_role from to dirs src n u v b h =
      let p : RoleProfile = record {
        id = to;
        name = some (
            if text_eq from (text "server")
            then text "自定义组长"
            else if text_eq from (text "client")
            then text "自定义组员"
            else to);
        modules = src.0.modules;
        base = some from;
      } in
      let (own, others) = saved-find_role p dirs n u b in
      (
        insert to (some p) dirs,
        p,
        rw (v, clone_role, h, save_lem p dirs) refl,
        own,
        refl,
        refl,
        others,
      )
