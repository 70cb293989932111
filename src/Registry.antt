-- ===== src/Registry.antt =====
-- crates/lan-share/src/registry.rs: the registered backends, the routing of a model name to one of
-- them, and the model catalog. A `HashMap` is walked in the order of its association list; the
-- theorems hold for every such order.
mod Prefix
pub mod Route
pub mod Register
pub mod Catalog
mod Tests
use aipowergateway.Prelude.{
  ℕ, Bool, true, false, not, ◌&&◌, ◌||◌, Option, none, some, List, [], ◌∷◌, ◌++◌, map, concat_map,
  ltb, leb, ◌==◌, if◌then◌else◌, is_nil, is_some, length, unwrap_or, Result, ok, err,
}
use aipowergateway.Prelude.Text.{Text, text, text_eq, text_le, starts_with, trim}
use aipowergateway.Prelude.Map.{Map, lookup, insert, contains_key, keys}
use aipowergateway.Prelude.Sort.{sort_by}
use aipowergateway.Health.{HealthLevel, healthy, degraded, removed, ProviderState}
use aipowergateway.Backend.{
  Provider, mock, deep_seek, kimi, zhipu, code_buddy, custom, BackendEntry, Backend, mock_backend,
  new_compat, name, provider, models, from_str, is_builtin, is_executor_provider, nonempty, filled,
  backend_id, effective_models, resolve_api_key,
}

unfoldable pub prefix_for : Provider → Option Text
prefix_for deep_seek = some (text "deepseek-")
prefix_for kimi = some (text "kimi-")
prefix_for zhipu = some (text "glm-")
prefix_for mock = some (text "mock-")
prefix_for code_buddy = none
prefix_for custom = none

pub record RegistryInner : Type 0 where
  pub backends : Map Backend
  pub prefixes : Map Text
  pub exact : Map Text

abbrev pub empty : RegistryInner
empty = record { backends = []; prefixes = []; exact = [] }

-- Each model of the list now leads to the name.
unfoldable pub map_models : List Text → Text → Map Text → Map Text
map_models [] n exact = exact
map_models (m ∷ ms) n exact = map_models ms n (insert m n exact)

abbrev pub is_mock : Provider → Bool
is_mock mock = true
is_mock _ = false

abbrev pub add_prefix : Backend → RegistryInner → Map Text
add_prefix b inner = elim (prefix_for (provider b)) [
  | none ↦ inner.prefixes
  | some prefix ↦
      if not (is_mock (provider b)) || is_nil inner.backends
      then insert prefix (name b) inner.prefixes
      else inner.prefixes
]

unfoldable pub register : Backend → RegistryInner → RegistryInner
unfolding map_models
register b inner = record {
  backends = insert (name b) b inner.backends;
  prefixes = add_prefix b inner;
  exact = map_models (models b) (name b) inner.exact;
}

-- The loop of `replace_all` does what `register` does, on a fresh state that is then put in.
unfoldable pub register_all : List Backend → RegistryInner → RegistryInner
register_all [] inner = inner
register_all (b ∷ bs) inner = register_all bs (register b inner)

unfoldable pub replace_all : List Backend → RegistryInner → RegistryInner
unfolding register_all
replace_all bs inner = register_all bs empty

-- `health` is what the attached table holds, `none` if `attach_health` was not called.
unfoldable pub is_removed : Option (Map ProviderState) → Text → Bool
is_removed none n = false
is_removed (some states) n = elim (lookup n states) [
  | none ↦ false
  | some st ↦ elim st.level [ removed ↦ true | healthy ↦ false | degraded ↦ false ]
]

unfoldable pub route_rank : Option (Map ProviderState) → Text → ℕ
route_rank none n = 0
route_rank (some states) n = elim (lookup n states) [
  | none ↦ 0
  | some st ↦ elim st.level [ degraded ↦ 1 | healthy ↦ 0 | removed ↦ 0 ]
]

-- The best prefix so far: its length (the prefixes are ASCII), the backend and its rank.
pub record Best : Type 0 where
  pub len : ℕ
  pub backend : Text
  pub rank : ℕ

module _ (health : Option (Map ProviderState)) (inner : RegistryInner) where
  abbrev pub usable : Text → Text × Text → Bool
  usable model (prefix, n) =
      starts_with model prefix && (contains_key n inner.backends && not (is_removed health n))

  abbrev pub better : ℕ → ℕ → Option Best → Bool
  better len rank none = true
  better len rank (some b) = ltb b.len len || ((len == b.len) && ltb rank b.rank)

  unfoldable pub best_prefix : Text → List (Text × Text) → Option Best → Option Best
  unfolding starts_with is_removed route_rank
  best_prefix model [] best = best
  best_prefix model ((prefix, n) ∷ rest) best = best_prefix model rest (
      if usable model (prefix, n) && better (length prefix) (route_rank health n) best
      then some (record { len = length prefix; backend = n; rank = route_rank health n })
      else best)

  -- `get(name).unwrap()`: `none` would be a panic, and does not occur.
  abbrev pub with_name : Text → Option (Text × Backend)
  with_name n = elim (lookup n inner.backends) [ none ↦ none | some b ↦ some (n, b) ]

  -- The only backend, unless it is removed.
  abbrev pub only_backend : Map Backend → Option (Text × Backend)
  only_backend ((n, b) ∷ []) = if is_removed health n then none else some (n, b)
  only_backend _ = none

  abbrev pub route_by_prefix : Text → Option (Text × Backend)
  route_by_prefix model = elim (best_prefix model inner.prefixes none) [
    | some best ↦ with_name best.backend
    | none ↦ only_backend inner.backends
  ]

  -- The backend that the model is mapped to exactly, if that is registered.
  abbrev pub exact_backend : Text → Option (Text × Backend)
  exact_backend model = elim (lookup model inner.exact) [ none ↦ none | some n ↦ with_name n ]

  unfoldable pub route : Text → Option (Text × Backend)
  unfolding best_prefix
  route model = elim (exact_backend model) [
    | some (n, b) ↦ if is_removed health n then none else some (n, b)
    | none ↦ route_by_prefix model
  ]

  -- The catalog before it is sorted: the models of every backend that is not removed.
  abbrev pub listed : Map Backend → List (Text × Text)
  listed [] = []
  listed ((n, b) ∷ bs) =
      if is_removed health n then listed bs else map (λ m. (m, n)) (models b) ++ listed bs

  -- `(r1, m1) <= (r2, m2)`
  abbrev pub catalog_le : Text × Text → Text × Text → Bool
  catalog_le (m, n) (k, o) =
      ltb (route_rank health n) (route_rank health o)
      || ((route_rank health n == route_rank health o) && text_le m k)

  -- `dedup_by`: of neighbours with the same model the first is kept.
  unfoldable pub dedup_after : Text × Text → List (Text × Text) → List (Text × Text)
  unfolding text_eq
  dedup_after p [] = []
  dedup_after p (q ∷ rest) = if text_eq q.0 p.0 then dedup_after p rest else q ∷ dedup_after q rest

  unfoldable pub dedup : List (Text × Text) → List (Text × Text)
  unfolding dedup_after
  dedup [] = []
  dedup (p ∷ rest) = p ∷ dedup_after p rest

  unfoldable pub models_catalog : List (Text × Text)
  unfolding dedup route_rank
  models_catalog = dedup (sort_by catalog_le (listed inner.backends))

unfoldable pub backend_names : RegistryInner → List Text
backend_names inner = sort_by text_le (keys inner.backends)

-- A failure of `backend_from_entry`, with the name of the entry.
pub data EntryError : Type 0 where
  requires_base_url requires_model : Text → EntryError

module _ (env : Text → Option Text) (upper : Text → Text) where
  unfoldable pub backend_from_entry : BackendEntry → Result Backend EntryError
  unfolding from_str new_compat resolve_api_key effective_models backend_id is_executor_provider
      trim
  backend_from_entry e = elim (from_str e.provider) [
    | mock ↦ ok (mock_backend (text "mock-7b"))
    | p ↦
        if not (is_builtin p) && is_nil (trim (unwrap_or e.base_url []))
        then err (requires_base_url (backend_id e))
        else if not (is_builtin p)
            && (is_nil (effective_models e) && not (is_executor_provider e.provider))
        then err (requires_model (backend_id e))
        else ok (
            new_compat (record {
              provider = p;
              api_key = unwrap_or (resolve_api_key env upper e) [];
              model = filled e.model;
              models = effective_models e;
              base_url = e.base_url;
              timeout_secs = 60;
              provider_label = some e.provider;
              name = some (backend_id e);
            }))
  ]

  unfoldable pub backends_from : List BackendEntry → Result (List Backend) EntryError
  unfolding backend_from_entry
  backends_from [] = ok []
  backends_from (e ∷ es) =
      let rest = backends_from es in
      elim (backend_from_entry e) [
        | err x ↦ err x
        | ok b ↦ elim rest [ err x ↦ err x | ok bs ↦ ok (b ∷ bs) ]
      ]

  unfoldable pub registry_from_entries : List BackendEntry → Result RegistryInner EntryError
  unfolding backends_from replace_all
  registry_from_entries es = elim (backends_from es) [
    | err x ↦ err x
    | ok bs ↦ ok (replace_all bs empty)
  ]
