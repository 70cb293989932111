-- ===== src/Registry/Register.antt =====
-- What registration does to routing, and what a hot replacement leaves.
use aipowergateway.Prelude.{
  ◌≡◌, refl, sym, ◌∙◌, ◌⊎◌, inl, inr, Bool, true, false, ◌||◌, Option, none, some, List, [], ◌∷◌,
  arith, if◌then◌else◌, any, or_else, not, is_nil, Bool-cases, Option-cases,
}
use aipowergateway.Prelude.Text.{Text, text_eq, text_eq_iff, text_eq_refl}
use aipowergateway.Prelude.Map.{
  Map, lookup, insert, lookup-insert, contains_key, HasUniqueKeys, insert-HasUniqueKeys,
}
use aipowergateway.Health.{ProviderState}
use aipowergateway.Backend.{Backend, name, provider, models}
use aipowergateway.Registry.{
  RegistryInner, empty, map_models, add_prefix, is_mock, register, register_all, replace_all,
  is_removed, exact_backend, route, prefix_for,
}
use aipowergateway.Registry.Route.{route_exact, exact_backend-found}

-- The backend lists the model.
abbrev pub serves : Text → Backend → Bool
serves m b = any (λ k. text_eq k m) (models b)

lookup-map_models :
    (m n : Text) (ms : List Text) (exact : Map Text)
    → lookup m (map_models ms n exact)
      ≡ (if any (λ k. text_eq k m) ms then some n else lookup m exact)
unfolding map_models
lookup-map_models m n [] exact = refl
lookup-map_models m n (k ∷ ms) exact =
    ground (arith, lookup-map_models m n ms (insert k n exact), lookup-insert k m n exact)

-- After a backend is registered, each model that it lists is routed to it whatever was registered
-- before, or to nothing while it is removed.
route-register :
    (health : Option (Map ProviderState)) (b : Backend) (inner : RegistryInner) (model : Text)
    → serves model b ≡ true
    → route health (register b inner) model
      ≡ (if is_removed health (name b) then none else some (name b, b))
unfolding register
route-register health b inner model listed =
    route_exact health (register b inner) model (name b) b found
  where
    found : exact_backend health (register b inner) model ≡ some (name b, b)
    found =
        exact_backend-found health (register b inner) model (name b) b
          (lookup-map_models model (name b) (models b) inner.exact ∙ rw listed refl)
          (lookup-insert (name b) (name b) b inner.backends ∙ rw (text_eq_refl (name b)) refl)

-- The last backend of the list with the property.
abbrev pub last_where : (Backend → Bool) → List Backend → Option Backend
last_where p [] = none
last_where p (b ∷ bs) = or_else (last_where p bs) (if p b then some b else none)

abbrev pub name_of : Option Backend → Option Text
name_of none = none
name_of (some b) = some (name b)

lookup-register_all :
    (bs : List Backend) (m n : Text) (inner : RegistryInner)
    → (lookup m (register_all bs inner).exact
        ≡ or_else (name_of (last_where (serves m) bs)) (lookup m inner.exact))
      × (lookup n (register_all bs inner).backends
          ≡ or_else (last_where (λ b. text_eq (name b) n) bs) (lookup n inner.backends))
unfolding register_all register
lookup-register_all [] m n inner = (refl, refl)
lookup-register_all (b ∷ bs) m n inner =
    let (exact, backends) = lookup-register_all bs m n (register b inner) in
    (
      exact
          ∙ rw (lookup-map_models m (name b) (models b) inner.exact)
              (exact_lem (last_where (serves m) bs) _ (serves m b)),
      backends
          ∙ rw (lookup-insert (name b) n b inner.backends)
              (backend_lem (last_where (λ x. text_eq (name x) n) bs) _ (text_eq (name b) n)),
    )
  where
    exact_lem :
        (o : Option Backend) (k : Option Text) (t : Bool)
        → or_else (name_of o) (if t then some (name b) else k)
          ≡ or_else (name_of (or_else o (if t then some b else none))) k
    exact_lem (some x) k t = refl
    exact_lem none k true = refl
    exact_lem none k false = refl

    backend_lem :
        (o k : Option Backend) (t : Bool)
        → or_else o (if t then some b else k) ≡ or_else (or_else o (if t then some b else none)) k
    backend_lem (some x) k t = refl
    backend_lem none k true = refl
    backend_lem none k false = refl

-- A replacement forgets what was registered: a model leads to the last of the new backends that lists
-- it, and a name to the last of the new backends of that name.
lookup-replace_all :
    (bs : List Backend) (m n : Text) (inner : RegistryInner)
    → (lookup m (replace_all bs inner).exact ≡ name_of (last_where (serves m) bs))
      × (lookup n (replace_all bs inner).backends ≡ last_where (λ b. text_eq (name b) n) bs)
unfolding replace_all lookup
lookup-replace_all bs m n inner =
    let (exact, backends) = lookup-register_all bs m n empty in
    (
      exact ∙ right_none (name_of (last_where (serves m) bs)),
      backends ∙ right_none (last_where (λ b. text_eq (name b) n) bs),
    )
  where
    right_none : {A : Type 0} (o : Option A) → or_else o none ≡ o
    right_none (some x) = refl
    right_none none = refl

-- Each model and each prefix leads to a registered backend.
pub record IsConsistent (inner : RegistryInner) : Type 0 where
  pub exact : (m n : Text) → lookup m inner.exact ≡ some n → contains_key n inner.backends ≡ true
  pub prefixes :
      (p n : Text) → lookup p inner.prefixes ≡ some n → contains_key n inner.backends ≡ true

contains_key-insert :
    (k n : Text) (b : Backend) (bs : Map Backend)
    → contains_key n (insert k b bs) ≡ (text_eq k n || contains_key n bs)
contains_key-insert k n b bs = ground (arith, lookup-insert k n b bs)

some_inj : {A : Type 0} {x y : A} → some x ≡ some y → x ≡ y
some_inj h = cc

lookup-add_prefix :
    (b : Backend) (inner : RegistryInner) (p n : Text)
    → lookup p (add_prefix b inner) ≡ some n
    → (name b ≡ n) ⊎ (lookup p inner.prefixes ≡ some n)
lookup-add_prefix b inner p n found = elim (Option-cases (prefix_for (provider b))) [
  | inl none_for ↦ inr (rw (none_for, add_prefix) at found)
  | inr (prefix, is_for) ↦ new_prefix prefix _ (rw (is_for, add_prefix) at found)
]
  where
    new_prefix :
        (prefix : Text) (taken : Bool)
        → lookup p (if taken then insert prefix (name b) inner.prefixes else inner.prefixes)
          ≡ some n
        → (name b ≡ n) ⊎ (lookup p inner.prefixes ≡ some n)
    new_prefix prefix false h = inr h
    new_prefix prefix true h = elim (Bool-cases (text_eq prefix p)) [
      | inl same ↦
          inl (some_inj (sym (rw same at (lookup-insert prefix p (name b) inner.prefixes)) ∙ h))
      | inr other ↦ inr (sym (rw other at (lookup-insert prefix p (name b) inner.prefixes)) ∙ h)
    ]

register-IsConsistent :
    (b : Backend) (inner : RegistryInner) → IsConsistent inner → IsConsistent (register b inner)
unfolding register
register-IsConsistent b inner h = record {
  exact = λ m n found. still n (elim (Bool-cases (serves m b)) [
    | inl own ↦
        inl
          (some_inj (sym (rw own at (lookup-map_models m (name b) (models b) inner.exact)) ∙ found))
    | inr other ↦ inr (
        h.exact m n
          (sym (rw other at (lookup-map_models m (name b) (models b) inner.exact)) ∙ found))
  ]);
  prefixes = λ p n found. still n (elim (lookup-add_prefix b inner p n found) [
    | inl own ↦ inl own
    | inr other ↦ inr (h.prefixes p n other)
  ]);
}
  where
    still :
        (n : Text)
        → (name b ≡ n) ⊎ (contains_key n inner.backends ≡ true)
        → contains_key n (insert (name b) b inner.backends) ≡ true
    still n (inl own) =
        contains_key-insert (name b) n b inner.backends ∙ rw ((text_eq_iff (name b) n).1 own) refl
    still n (inr there) = contains_key-insert (name b) n b inner.backends ∙ ground (arith, there)

-- A replacement leaves a registry in which each model and each prefix leads to a registered backend.
pub replace_all-IsConsistent :
    (bs : List Backend) (inner : RegistryInner) → IsConsistent (replace_all bs inner)
unfolding replace_all register_all lookup
replace_all-IsConsistent bs inner =
    go bs empty (record { exact = λ m n found. cc; prefixes = λ p n found. cc })
  where
    go :
        (bs : List Backend) (inner : RegistryInner)
        → IsConsistent inner
        → IsConsistent (register_all bs inner)
    go [] inner h = h
    go (b ∷ bs) inner h = go bs (register b inner) (register-IsConsistent b inner h)

add_prefix-HasUniqueKeys :
    (b : Backend) (inner : RegistryInner)
    → HasUniqueKeys inner.prefixes
    → HasUniqueKeys (add_prefix b inner)
add_prefix-HasUniqueKeys b inner u = elim (Option-cases (prefix_for (provider b))) [
  | inl e ↦ rw (e, add_prefix) u
  | inr (prefix, e) ↦ elim (Bool-cases (not (is_mock (provider b)) || is_nil inner.backends)) [
    | inl k ↦ rw (e, add_prefix, k) (insert-HasUniqueKeys prefix (name b) inner.prefixes u)
    | inr k ↦ rw (e, add_prefix, k) u
  ]
]

register_all-HasUniqueKeys :
    (bs : List Backend) (inner : RegistryInner)
    → HasUniqueKeys inner.prefixes
    → HasUniqueKeys (register_all bs inner).prefixes
unfolding register_all register
register_all-HasUniqueKeys [] inner u = u
register_all-HasUniqueKeys (b ∷ bs) inner u =
    register_all-HasUniqueKeys bs (register b inner) (add_prefix-HasUniqueKeys b inner u)

-- A hot replacement leaves each prefix listed once.
replace_all-HasUniqueKeys :
    (bs : List Backend) (inner : RegistryInner) → HasUniqueKeys (replace_all bs inner).prefixes
unfolding replace_all
replace_all-HasUniqueKeys bs inner = register_all-HasUniqueKeys bs empty tt
