-- ===== src/Runtime/Roles/Enabled.antt =====
-- The modules that a role enables: its own entry for a module counts, and the one of its base
-- where it has none.
use aipowergateway.Prelude.{
  ◌≡◌, ◌↔◌, refl, sym, ◌∙◌, subst, inl, inr, Bool, true, false, Option, none, some, List, [], ◌∷◌,
  ◌≢◌, IsMember, filter_map, Bool-cases, Option-cases, ok, or_else, ◌>>=◌,
}
use mathlib.Core.Option
use aipowergateway.Prelude.Text.{Text, text_eq, text_eq_iff, text_le, text_le_total, text_le_trans}
use aipowergateway.Prelude.Map.{
  Map, lookup, insert, HasUniqueKeys, lookup-insert, insert-HasUniqueKeys,
}
use aipowergateway.Prelude.Sort.{
  sort_by, IsSorted, sort_by-IsSorted, Any-sort_by, IsDistinct, sort_by-IsDistinct,
}
use aipowergateway.Runtime.Roles.{
  Trust, user, RoleProfile, ModuleEntry, RoleDirs, find_role, put_all, inherited, merged_modules,
  enabled_key, enabled_modules,
}

-- The loop over the entries writes each of them.
lookup-put_all :
    (m : Text) (es : Map ModuleEntry) (merged : Map Bool)
    → HasUniqueKeys es
    → lookup m (put_all es merged)
      ≡ or_else (Option.map (λ (e : ModuleEntry). e.enabled) (lookup m es)) (lookup m merged)
unfolding put_all lookup
lookup-put_all m [] merged u = refl
lookup-put_all m ((k, e) ∷ es) merged (fresh, u) =
    lookup-put_all m es (insert k e.enabled merged) u
    ∙ rw (lookup-insert k m e.enabled merged) (elim (Bool-cases (text_eq k m)) [
      | inl same ↦
          let gone = subst (λ z. lookup z es ≡ none) ((text_eq_iff k m).0 same) fresh in
          rw (same, gone) refl
      | inr apart ↦ rw (apart) refl
    ])

put_all-HasUniqueKeys :
    (es : Map ModuleEntry) (merged : Map Bool)
    → HasUniqueKeys merged
    → HasUniqueKeys (put_all es merged)
unfolding put_all
put_all-HasUniqueKeys [] merged u = u
put_all-HasUniqueKeys ((k, e) ∷ es) merged u =
    put_all-HasUniqueKeys es (insert k e.enabled merged) (insert-HasUniqueKeys k e.enabled merged u)

-- The entry that counts for a module.
abbrev pub entry_at : RoleDirs → RoleProfile → Text → Option ModuleEntry
entry_at dirs p m =
    or_else (lookup m p.modules) (p.base >>= find_role dirs >>= λ x. lookup m x.0.modules)

-- Every profile that is found lists a module once.
abbrev pub HasUniqueModules : RoleDirs → Type 0
HasUniqueModules dirs =
    (id : Text) (p : RoleProfile) (t : Trust)
    → find_role dirs id ≡ some (p, t)
    → HasUniqueKeys p.modules

lookup-inherited :
    (dirs : RoleDirs) (p : RoleProfile) (m : Text)
    → HasUniqueModules dirs
    → (lookup m (inherited dirs p)
        ≡ Option.map
            (λ (e : ModuleEntry). e.enabled)
            (p.base >>= find_role dirs >>= λ x. lookup m x.0.modules))
      × HasUniqueKeys (inherited dirs p)
unfolding inherited lookup
lookup-inherited dirs p m all = elim (Option-cases p.base) [
  | inl e ↦ rw (e, inherited) (refl, tt)
  | inr (b, e) ↦ elim (Option-cases (find_role dirs b)) [
    | inl k ↦ rw (e, inherited, k) (refl, tt)
    | inr (x, k) ↦
        let u : HasUniqueKeys x.0.modules = all b x.0 x.1 k in
        rw (e, inherited, k)
          (
            lookup-put_all m x.0.modules [] u ∙ or_else_none _,
            put_all-HasUniqueKeys x.0.modules [] tt,
          )
  ]
]
  where
    or_else_none : (o : Option Bool) → or_else o none ≡ o
    or_else_none none = refl
    or_else_none (some b) = refl

lookup-merged_modules :
    (dirs : RoleDirs) (p : RoleProfile) (m : Text)
    → HasUniqueModules dirs
    → HasUniqueKeys p.modules
    → (lookup m (merged_modules dirs p)
        ≡ Option.map (λ (e : ModuleEntry). e.enabled) (entry_at dirs p m))
      × HasUniqueKeys (merged_modules dirs p)
unfolding merged_modules
lookup-merged_modules dirs p m all u =
    let (look, unique) = lookup-inherited dirs p m all in
    (
      lookup-put_all m p.modules (inherited dirs p) u
          ∙ rw (look) (map_or_else (lookup m p.modules) _),
      put_all-HasUniqueKeys p.modules (inherited dirs p) unique,
    )
  where
    map_or_else :
        (a b : Option ModuleEntry)
        → or_else
            (Option.map (λ (e : ModuleEntry). e.enabled) a)
            (Option.map (λ (e : ModuleEntry). e.enabled) b)
          ≡ Option.map (λ (e : ModuleEntry). e.enabled) (or_else a b)
    map_or_else none b = refl
    map_or_else (some a) b = refl

-- A module is in the map with `true` exactly when it is collected.
collected :
    (m : Text) (mods : Map Bool)
    → HasUniqueKeys mods
    → IsMember m (filter_map enabled_key mods) ↔ (lookup m mods ≡ some true)
unfolding lookup
collected m [] u = (λ h. absurd h, λ h. cc)
collected m ((k, true) ∷ mods) (fresh, u) =
    let (to, from) = collected m mods u in
    (
      λ h. elim h [
        | inl same ↦ rw ((text_eq_iff k m).1 (sym same)) refl
        | inr later ↦ elim (Bool-cases (text_eq k m)) [
          | inl e ↦ rw (e) refl
          | inr e ↦ rw (e) (to later)
        ]
      ],
      λ h. elim (Bool-cases (text_eq k m)) [
        | inl e ↦ inl (sym ((text_eq_iff k m).0 e))
        | inr e ↦ inr (from (rw (e) at h))
      ],
    )
collected m ((k, false) ∷ mods) (fresh, u) =
    let (to, from) = collected m mods u in
    (
      λ h. elim (Bool-cases (text_eq k m)) [
        | inl e ↦
            let gone = subst (λ z. lookup z mods ≡ none) ((text_eq_iff k m).0 e) fresh in
            let clash = sym gone ∙ to h in cc
        | inr e ↦ rw (e) (to h)
      ],
      λ h. elim (Bool-cases (text_eq k m)) [
        | inl e ↦ let clash : Path (Option Bool) (some false) (some true) = rw (e) at h in cc
        | inr e ↦ from (rw (e) at h)
      ],
    )

collected-lookup :
    (m : Text) (mods : Map Bool) → IsMember m (filter_map enabled_key mods) → lookup m mods ≢ none
unfolding lookup
collected-lookup m [] h = absurd h
collected-lookup m ((k, true) ∷ mods) h = elim h [
  | inl same ↦ λ e. let clash = rw ((text_eq_iff k m).1 (sym same)) at e in cc
  | inr later ↦
      let rest = collected-lookup m mods later in
      elim (Bool-cases (text_eq k m)) [
        | inl same ↦ λ e. let clash = rw same at e in cc
        | inr apart ↦ λ e. rest (rw apart at e)
      ]
]
collected-lookup m ((k, false) ∷ mods) h = elim (Bool-cases (text_eq k m)) [
  | inl same ↦ λ e. let clash = rw same at e in cc
  | inr apart ↦ λ e. collected-lookup m mods h (rw apart at e)
]

collected-IsDistinct :
    (mods : Map Bool) → HasUniqueKeys mods → IsDistinct (filter_map enabled_key mods)
collected-IsDistinct [] u = tt
collected-IsDistinct ((k, true) ∷ mods) (fresh, u) =
    (λ m. collected-lookup k mods m fresh, collected-IsDistinct mods u)
collected-IsDistinct ((k, false) ∷ mods) (fresh, u) = collected-IsDistinct mods u

-- The modules of a user role: those whose entry is enabled, each once in the order of their names.
-- The entry of the role counts before the one of its base, so a role can switch off what its base
-- switches on.
pub enabled_modules-entry_at :
    (dirs : RoleDirs) (id : Text) (p : RoleProfile)
    → HasUniqueModules dirs
    → find_role dirs id ≡ some (p, user)
    → (out : List Text) × (enabled_modules dirs id ≡ ok out)
      × IsSorted text_le out
      × IsDistinct out
      × ((m : Text)
          → IsMember m out
            ↔ (Option.map (λ (e : ModuleEntry). e.enabled) (entry_at dirs p m) ≡ some true))
unfolding enabled_modules
enabled_modules-entry_at dirs id p all h =
    let out = filter_map enabled_key (merged_modules dirs p) in
    (
      sort_by text_le out,
      rw (h, enabled_modules) refl,
      sort_by-IsSorted text_le text_le_total text_le_trans out,
      sort_by-IsDistinct text_le out (
          collected-IsDistinct (merged_modules dirs p)
            (lookup-merged_modules dirs p [] all (all id p user h)).1),
      λ m.
          let (look, unique) = lookup-merged_modules dirs p m all (all id p user h) in
          let (to, from) = collected m (merged_modules dirs p) unique in
          let (into, back) = Any-sort_by text_le (λ y. m ≡ y) out in
          (λ k. sym look ∙ to (into k), λ k. back (from (look ∙ k))),
    )
