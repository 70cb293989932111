-- ===== src/BackendStore/Tests.antt =====
-- Runs of the store after the tests of the source, and its laws at such inputs.
use aipowergateway.Prelude.{◌≡◌, refl, true, none, some, [], ◌∷◌, if◌then◌else◌}
use aipowergateway.Prelude.Text.{Text, text, text_eq, text_le}
use aipowergateway.Prelude.TextSet.{has, add}
use aipowergateway.Prelude.Sort.{sort_by}
use aipowergateway.Backend.{BackendEntry, backend_id}
use aipowergateway.BackendStore.{BackendStore, new, fill, list, upsert, replace, remove, save}
use aipowergateway.BackendStore.Laws.{entry, entry-upsert}

abbrev made : Text → Text → BackendEntry
made provider id = record {
  provider = provider;
  id = some id;
  api_key = none;
  api_key_env = none;
  model = none;
  models = [];
  base_url = none;
  split_ratio = none;
  listing_id = none;
}

abbrev ds : BackendEntry
ds = made (text "deepseek") (text "ds")

abbrev mock : BackendEntry
mock = made (text "mock") (text "mock")

abbrev store : BackendStore
store = record { entries = mock ∷ ds ∷ []; file = none }

initial_only_fills_missing :
    (new (some (mock ∷ [])) (mock ∷ ds ∷ [])
      ≡ record { entries = mock ∷ ds ∷ []; file = some (mock ∷ []) })
    × (list store ≡ ds ∷ mock ∷ [])
    × ((upsert ds store).entries ≡ mock ∷ ds ∷ [])
    × (remove (text "ds") store ≡ (record { entries = mock ∷ []; file = none }, true))
    × (save (λ old es. (true, some es)) store
        ≡ (record store { file = some (ds ∷ mock ∷ []) }, true))
unfolding new fill list sort_by upsert replace remove save text_eq text_le has add backend_id
initial_only_fills_missing = (refl, refl, refl, refl, refl)

entry-upsert_example :
    (entry (text "mock") (upsert ds store)
      ≡ (if text_eq (backend_id ds) (text "mock") then some ds else entry (text "mock") store))
    × (entry (text "mock") (remove (text "ds") store).0
        ≡ (if text_eq (text "ds") (text "mock") then none else entry (text "mock") store))
entry-upsert_example = entry-upsert ds (text "ds") (text "mock") store
