-- ===== src/Runtime/Roles/Find.antt =====
-- Where a role is found, and what the operations leave to be found.
use aipowergateway.Prelude.{
  ◌≡◌, refl, sym, ◌∙◌, ap, subst, inl, inr, Bool, true, false, Option, none, some, List, [], ◌∷◌,
  if◌then◌else◌, find, map, arith, All, IsMember, Bool-cases, Option-cases,
}
use mathlib.Core.Option
use aipowergateway.Prelude.Text.{Text, text, text_eq, text_eq_iff}
use aipowergateway.Prelude.Map.{lookup, HasUniqueKeys}
use aipowergateway.Prelude.Sort.{Any-sort_by}
use aipowergateway.Runtime.Roles.{
  Trust, system, user, RoleProfile, RoleDirs, profile_of, user_roles, find_role, builtin_server,
  builtin_client,
}

-- Each profile that can be read has the name of its directory as its id.
abbrev pub IsNamed : RoleDirs → Type 0
IsNamed dirs = All (λ d. (profile_of d).id ≡ d.0) dirs

find-none :
    {A : Type 0} (q : A → Bool) (xs : List A)
    → ((x : A) → IsMember x xs → q x ≡ true → ⊥)
    → find q xs ≡ none
find-none q [] h = refl
find-none q (x ∷ xs) h = elim (Bool-cases (q x)) [
  | inl e ↦ absurd (h x (inl refl) e)
  | inr e ↦ rw (e) (find-none q xs (λ y m. h y (inr m)))
]

find_only :
    {A : Type 0} (q : A → Bool) (y : A) (xs : List A)
    → IsMember y xs
    → q y ≡ true
    → ((x : A) → IsMember x xs → q x ≡ true → x ≡ y)
    → find q xs ≡ some y
find_only q y [] m k h = absurd m
find_only q y (x ∷ xs) m k h = elim (Bool-cases (q x)) [
  | inl e ↦ rw (e) (ap some (h x (inl refl) e))
  | inr e ↦ rw (e) (elim m [
    | inl same ↦ absurd (other same e k)
    | inr later ↦ find_only q y xs later k (λ z n. h z (inr n))
  ])
]
  where
    other : y ≡ x → q x ≡ false → q y ≡ true → ⊥
    other p e k = cc

find-map :
    {A B : Type 0} (g : A → B) (q : B → Bool) (xs : List A)
    → find q (map g xs) ≡ Option.map g (find (λ x. q (g x)) xs)
find-map g q [] = refl
find-map g q (x ∷ xs) = ground (arith, find-map g q xs)

member-lookup :
    (id : Text) (dirs : RoleDirs) (x : RoleProfile)
    → IsNamed dirs
    → HasUniqueKeys dirs
    → IsMember x (map profile_of dirs)
    → text_eq x.id id ≡ true
    → Option.map (λ f. profile_of (id, f)) (lookup id dirs) ≡ some x
unfolding lookup
member-lookup id [] x n u m k = absurd m
member-lookup id ((d, f) ∷ dirs) x (named, n) (fresh, u) m k = elim m [
  | inl same ↦
      let here : d ≡ id =
        sym named ∙ ap (λ (r : RoleProfile). r.id) (sym same) ∙ (text_eq_iff x.id id).0 k in
      rw ((text_eq_iff d id).1 here)
        (ap (λ z. some (profile_of (z, f))) (sym here) ∙ ap some (sym same))
  | inr later ↦
      let rest = member-lookup id dirs x n u later k in
      elim (Bool-cases (text_eq d id)) [
        | inl e ↦
            let gone = subst (λ z. lookup z dirs ≡ none) ((text_eq_iff d id).0 e) fresh in
            let clash = rw (gone) at rest in cc
        | inr e ↦ rw (e) rest
      ]
]

lookup-member :
    (id : Text) (dirs : RoleDirs) (f : Option RoleProfile)
    → lookup id dirs ≡ some f
    → IsMember (profile_of (id, f)) (map profile_of dirs)
unfolding lookup
lookup-member id [] f h = cc
lookup-member id ((d, g) ∷ dirs) f h = elim (Bool-cases (text_eq d id)) [
  | inl e ↦
      let same : Path (Option (Option RoleProfile)) (some g) (some f) = rw (e) at h in
      inl (
        ap (λ z. profile_of (id, z)) (inj (sym same))
        ∙ ap (λ z. profile_of (z, g)) (sym ((text_eq_iff d id).0 e)))
  | inr e ↦ inr (lookup-member id dirs f (rw (e) at h))
]
  where
    inj : {a b : Option RoleProfile} → Path (Option (Option RoleProfile)) (some a) (some b) → a ≡ b
    inj p = cc

lookup-named :
    (id : Text) (dirs : RoleDirs) (f : Option RoleProfile)
    → IsNamed dirs
    → lookup id dirs ≡ some f
    → (profile_of (id, f)).id ≡ id
unfolding lookup
lookup-named id [] f n h = cc
lookup-named id ((d, g) ∷ dirs) f (named, n) h = elim (Bool-cases (text_eq d id)) [
  | inl e ↦
      let same : Path (Option (Option RoleProfile)) (some g) (some f) = rw (e) at h in
      let here = (text_eq_iff d id).0 e in
      subst (λ (z : Text). (profile_of (z, f)).id ≡ z) here
        (subst (λ (z : Option RoleProfile). (profile_of (d, z)).id ≡ d) (file_inj same) named)
  | inr e ↦ lookup-named id dirs f n (rw (e) at h)
]
  where
    file_inj :
        {a b : Option RoleProfile} → Path (Option (Option RoleProfile)) (some a) (some b) → a ≡ b
    file_inj p = cc

some_inj : {a b : RoleProfile} → Path (Option RoleProfile) (some a) (some b) → a ≡ b
some_inj p = cc

-- Where a role is found: the built-in roles first, and then the directory of that name.
abbrev pub role_at : RoleDirs → Text → Option (RoleProfile × Trust)
role_at dirs id =
    if text_eq (text "server") id
    then some (builtin_server, system)
    else if text_eq (text "client") id
    then some (builtin_client, system)
    else Option.map (λ f. (profile_of (id, f), user)) (lookup id dirs)

user_find :
    (dirs : RoleDirs) (id : Text)
    → IsNamed dirs
    → HasUniqueKeys dirs
    → find (λ r. text_eq r.id id) (user_roles dirs)
      ≡ Option.map (λ f. profile_of (id, f)) (lookup id dirs)
unfolding user_roles
user_find dirs id n u = elim (Option-cases (lookup id dirs)) [
  | inl absent ↦ rw (absent) (
      find-none _ _ (λ x m k.
        let e = member-lookup id dirs x n u (unsorted x m) k in let clash = rw (absent) at e in cc))
  | inr (f, found) ↦ rw (found) (
      find_only _ (profile_of (id, f)) _
        (sorted (profile_of (id, f)) (lookup-member id dirs f found))
        ((text_eq_iff _ id).1 (lookup-named id dirs f n found))
        (λ x m k.
          let e = member-lookup id dirs x n u (unsorted x m) k in sym (some_inj (rw (found) at e))))
]
  where
    unsorted : (x : RoleProfile) → IsMember x (user_roles dirs) → IsMember x (map profile_of dirs)
    unsorted x m = (Any-sort_by _ (λ y. x ≡ y) (map profile_of dirs)).0 m

    sorted : (x : RoleProfile) → IsMember x (map profile_of dirs) → IsMember x (user_roles dirs)
    sorted x m = (Any-sort_by _ (λ y. x ≡ y) (map profile_of dirs)).1 m

-- `find` looks a role up among the built-in ones first, and then under the directory of its name.
pub find_role-role_at :
    (dirs : RoleDirs) (id : Text)
    → IsNamed dirs
    → HasUniqueKeys dirs
    → find_role dirs id ≡ role_at dirs id
unfolding find_role
find_role-role_at dirs id n u =
    ap
      (λ (z : Option (RoleProfile × Trust)).
        if text_eq (text "server") id
        then some (builtin_server, system)
        else if text_eq (text "client") id
        then some (builtin_client, system)
        else z)
      (find-map {B = RoleProfile × Trust} (λ (r : RoleProfile). (r, user)) (λ x. text_eq x.0.id id)
          (user_roles dirs)
        ∙ ap (Option.map {B = RoleProfile × Trust} (λ (r : RoleProfile). (r, user)))
            (user_find dirs id n u)
        ∙ map_twice (lookup id dirs))
  where
    map_twice :
        (o : Option (Option RoleProfile))
        → Option.map {B = RoleProfile × Trust}
            (λ (r : RoleProfile). (r, user))
            (Option.map (λ f. profile_of (id, f)) o)
          ≡ Option.map {B = RoleProfile × Trust} (λ f. (profile_of (id, f), user)) o
    map_twice none = refl
    map_twice (some f) = refl
