-- ===== src/Backend/Tests.antt =====
-- Runs on entries of the configuration.
use aipowergateway.Prelude.{◌≡◌, refl, true, Option, none, some, [], ◌∷◌, if◌then◌else◌}
use aipowergateway.Prelude.Text.{Text, text, text_eq, trim_end_matches}
use aipowergateway.Json.{null, obj, str, Fields}
use aipowergateway.Backend.{
  deep_seek, custom, BackendEntry, filled, from_str, provider_name, is_executor_provider,
  backend_id, effective_models, resolve_api_key, key_source, masked_key, mask, OpenAiCompatConfig,
  completions_url, effective_model, upstream_body, new_compat, name, models, default_model,
}
use aipowergateway.Backend.Keys.{key_source-resolve_api_key}

abbrev with_key : Text → BackendEntry
with_key k = record {
  provider = text "deepseek";
  id = none;
  api_key = some k;
  api_key_env = none;
  model = none;
  models = text "" ∷ text "deepseek-chat" ∷ [];
  base_url = none;
  split_ratio = none;
  listing_id = none;
}

abbrev no_env : Text → Option Text
no_env v = none

abbrev as_is : Text → Text
as_is t = t

entry_run :
    (from_str (text "deepseek") ≡ deep_seek)
    × (from_str (text "pair") ≡ custom)
    × (is_executor_provider (text "pair") ≡ true)
    × (backend_id (with_key (text "sk-1")) ≡ text "deepseek")
    × (effective_models (with_key (text "sk-1")) ≡ text "deepseek-chat" ∷ [])
    × (key_source no_env as_is (with_key (text "sk-1")) ≡ text "file")
    × (masked_key no_env as_is (with_key (text "sk-123456")) ≡ text "***3456")
unfolding from_str is_executor_provider backend_id effective_models key_source masked_key mask
    text_eq
entry_run = (refl, refl, refl, refl, refl, refl, refl)

abbrev cfg : OpenAiCompatConfig
cfg = record {
  provider = deep_seek;
  api_key = text "sk-1";
  model = none;
  models = [];
  base_url = some (text "http://host/v1/");
  timeout_secs = 60;
  provider_label = none;
  name = none;
}

config_run :
    (completions_url cfg ≡ text "http://host/v1/chat/completions")
    × (name (new_compat cfg) ≡ text "deepseek")
    × (models (new_compat cfg) ≡ text "deepseek-chat" ∷ [])
    × (upstream_body cfg null
        ≡ some (obj (Fields.field (text "model") (str (text "deepseek-chat")) Fields.end)))
unfolding completions_url trim_end_matches name new_compat models upstream_body provider_name
    default_model effective_model
config_run = (refl, refl, refl, refl)

key_source-resolve_api_key_example :
    let e = with_key (text "sk-1") in
    (key_source no_env as_is e ≡ text "none"
      → resolve_api_key no_env as_is e ≡ (
          if text_eq e.provider (text "codebuddy")
          then filled (no_env (text "CODEBUDDY_API_KEY"))
          else none))
    × (resolve_api_key no_env as_is e ≡ none → key_source no_env as_is e ≡ text "none")
    × (key_source no_env as_is e ≡ text "file" → resolve_api_key no_env as_is e ≡ filled e.api_key)
key_source-resolve_api_key_example =
    key_source-resolve_api_key no_env as_is (with_key (text "sk-1"))
