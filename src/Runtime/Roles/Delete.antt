-- ===== src/Runtime/Roles/Delete.antt =====
-- What deleting a role leaves to be found, on a disk that works.
use aipowergateway.Prelude.{
  ◌≡◌, refl, sym, ◌∙◌, ◌⊎◌, inl, inr, true, false, none, some, [], ◌∷◌, ◌++◌, Bool-cases,
  Option-cases,
}
use aipowergateway.Prelude.Text.{Text, text, text_eq, text_eq_refl}
use aipowergateway.Prelude.Map.{lookup, remove, HasUniqueKeys, lookup-remove, remove-HasUniqueKeys}
use aipowergateway.Runtime.Error.{role_error}
use aipowergateway.Runtime.Roles.{
  user, RoleDirs, RoleDisk, profile_of, find_role, delete_role, validate_id,
}
use aipowergateway.Runtime.Roles.Find.{IsNamed, find_role-role_at}
use aipowergateway.Runtime.Roles.Edit.{IsWorking, is_builtin, same_at, role_at-user, role_at-system}

remove-IsNamed : (id : Text) (dirs : RoleDirs) → IsNamed dirs → IsNamed (remove id dirs)
unfolding remove
remove-IsNamed id [] n = tt
remove-IsNamed id ((d, f) ∷ dirs) (named, n) = elim (Bool-cases (text_eq d id)) [
  | inl e ↦ rw (e) (remove-IsNamed id dirs n)
  | inr e ↦ rw (e) (named, remove-IsNamed id dirs n)
]

module _ (disk : RoleDisk) (working : IsWorking disk) where
  delete_role-user :
      (id : Text) (dirs : RoleDirs)
      → IsNamed dirs
      → HasUniqueKeys dirs
      → validate_id id ≡ true
      → is_builtin id ≡ false
      → (dirs' : RoleDirs) × (delete_role disk id dirs ≡ (dirs', none))
        × (find_role dirs' id ≡ none)
        × ((other : Text) → text_eq id other ≡ false → find_role dirs' other ≡ find_role dirs other)
  unfolding delete_role
  delete_role-user id dirs n u v b =
      let at_id = find_role-role_at dirs id n u ∙ role_at-user dirs id b in
      elim (Option-cases (lookup id dirs)) [
        | inl absent ↦
            let none_there : find_role dirs id ≡ none = at_id ∙ rw (absent) refl in
            (
              dirs,
              rw (none_there, delete_role, working.locates id v, absent) refl,
              none_there,
              λ other e. refl,
            )
        | inr (f, found) ↦
            let there : find_role dirs id ≡ some (profile_of (id, f), user) =
              at_id ∙ rw (found) refl in
            let n' = remove-IsNamed id dirs n in
            let u' = remove-HasUniqueKeys id dirs u in
            (
              remove id dirs,
              rw (there, delete_role, working.locates id v, found, working.removes id f) refl,
              find_role-role_at _ id n' u'
                  ∙ role_at-user _ id b
                  ∙ rw (lookup-remove id id dirs, text_eq_refl id) refl,
              λ other e.
                  find_role-role_at _ other n' u'
                  ∙ same_at _ dirs other (rw (lookup-remove id other dirs, e) refl)
                  ∙ sym (find_role-role_at dirs other n u),
            )
      ]

  delete_role-empty :
      (dirs : RoleDirs) → IsNamed dirs → HasUniqueKeys dirs → delete_role disk [] dirs ≡ ([], none)
  unfolding delete_role
  delete_role-empty dirs n u =
      let at_id = find_role-role_at dirs [] n u ∙ role_at-user dirs [] refl in
      elim (Option-cases (lookup [] dirs)) [
        | inl absent ↦
            let none_there : find_role dirs [] ≡ none = at_id ∙ rw (absent) refl in
            rw (none_there, delete_role, working.whole, working.clears dirs) refl
        | inr (f, found) ↦
            let there : find_role dirs [] ≡ some (profile_of ([], f), user) =
              at_id ∙ rw (found) refl in
            rw (there, delete_role, working.whole, working.clears dirs) refl
      ]

  -- Deleting by a valid id: a built-in role is refused and nothing changes, any other id is gone
  -- afterwards, and every other role is found as before. The id is not checked, though: deleting by
  -- the empty one succeeds, and no directory is left.
  pub delete_role-find_role :
      (id : Text) (dirs : RoleDirs)
      → IsNamed dirs
      → HasUniqueKeys dirs
      → validate_id id ≡ true
      → (((is_builtin id ≡ true)
            × (delete_role disk id dirs ≡ (
              dirs,
              some (
                  role_error
                    (text "builtin role " ++ (id ++ text " is read-only; clone it to customize"))),
            )))
          ⊎ ((is_builtin id ≡ false)
              × ((dirs' : RoleDirs) × (delete_role disk id dirs ≡ (dirs', none))
                  × (find_role dirs' id ≡ none)
                  × ((other : Text)
                      → text_eq id other ≡ false
                      → find_role dirs' other ≡ find_role dirs other))))
        × (delete_role disk [] dirs ≡ ([], none))
  unfolding delete_role
  delete_role-find_role id dirs n u v = (
    elim (Bool-cases (is_builtin id)) [
      | inl b ↦
          let (p, e) = role_at-system dirs id b in
          inl (b, rw (find_role-role_at dirs id n u ∙ e, delete_role) refl)
      | inr b ↦ inr (b, delete_role-user id dirs n u v b)
    ],
    delete_role-empty dirs n u,
  )
