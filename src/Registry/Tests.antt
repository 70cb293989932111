-- ===== src/Registry/Tests.antt =====
-- Runs of the registry, and its laws at such inputs.
use aipowergateway.Prelude.{
  ◌≡◌, refl, ◌<◌, ◌⊎◌, inl, inr, true, false, Option, none, some, [], ◌∷◌, length, IsMember,
}
use aipowergateway.Prelude.Text.{Text, text, text_eq, text_le, starts_with}
use aipowergateway.Prelude.Map.{Map, lookup, insert}
use aipowergateway.Prelude.Sort.{sort_by}
use aipowergateway.Health.{removed, ProviderState}
use aipowergateway.Backend.{Backend, mock_backend, compat, deep_seek, name, provider, models}
use aipowergateway.Registry.{
  RegistryInner, empty, register, map_models, prefix_for, replace_all, register_all, route,
  best_prefix, is_removed, route_rank, usable, models_catalog, dedup, dedup_after,
}
use aipowergateway.Registry.Route.{route-registered, route-longest_prefix}
use aipowergateway.Registry.Register.{IsConsistent, replace_all-IsConsistent}

abbrev ds : Backend
ds =
    compat
      (record {
        provider = deep_seek;
        api_key = [];
        model = none;
        models = text "deepseek-chat" ∷ [];
        base_url = none;
        timeout_secs = 60;
        provider_label = none;
        name = none;
      })
      (text "ds") (text "deepseek")

abbrev both : RegistryInner
both = record {
  backends = (text "mock", mock_backend (text "mock-7b")) ∷ (text "ds", ds) ∷ [];
  prefixes = (text "mock-", text "mock") ∷ (text "deepseek-", text "ds") ∷ [];
  exact = (text "mock-7b", text "mock") ∷ (text "deepseek-chat", text "ds") ∷ [];
}

abbrev gone : Option (Map ProviderState)
gone = some (
    (text "ds", record { level = removed; failures = 10; latency_ms = none; last_error = none })
    ∷ [])

registering :
    (replace_all (mock_backend (text "mock-7b") ∷ ds ∷ []) empty ≡ both)
    × (route none both (text "deepseek-v9") ≡ some (text "ds", ds))
    × (route gone both (text "deepseek-v9") ≡ none)
    × (route gone both (text "deepseek-chat") ≡ none)
    × (models_catalog none both
        ≡ (text "deepseek-chat", text "ds") ∷ (text "mock-7b", text "mock") ∷ [])
    × (models_catalog gone both ≡ (text "mock-7b", text "mock") ∷ [])
unfolding replace_all register_all register map_models prefix_for insert lookup route best_prefix
    is_removed route_rank models_catalog sort_by dedup dedup_after name provider models text_eq
    starts_with text_le
registering = (refl, refl, refl, refl, refl, refl)

route-registered_example :
    (lookup (text "ds") both.backends ≡ some ds) × (is_removed none (text "ds") ≡ false)
unfolding route best_prefix lookup starts_with text_eq is_removed route_rank
route-registered_example = route-registered none both (text "deepseek-v9") (text "ds") ds refl

route-longest_prefix_example :
    (f : Text × Text) × (b : Backend) × (route none both (text "deepseek-v9") ≡ some (f.1, b))
    × (lookup f.1 both.backends ≡ some b)
    × IsMember f both.prefixes
    × (usable none both (text "deepseek-v9") f ≡ true)
    × ((f ≡ (text "deepseek-", text "ds")) ⊎ (9 < length f.0))
unfolding lookup starts_with text_eq is_removed
route-longest_prefix_example =
    route-longest_prefix none both (text "deepseek-v9") (text "deepseek-", text "ds")
      (refl, (refl, tt)) refl (inr (inl refl)) refl

replace_all-IsConsistent_example : IsConsistent (replace_all (ds ∷ []) both)
replace_all-IsConsistent_example = replace_all-IsConsistent (ds ∷ []) both
