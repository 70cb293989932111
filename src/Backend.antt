-- ===== src/Backend.antt =====
-- crates/lan-share/src/backend.rs: the providers, the configured entries with their keys, and the two
-- backends (`MockBackend`, `OpenAICompatBackend`) as far as no request is sent. The environment
-- (`std::env::var`) is an argument `env`, `to_uppercase` an argument `upper`.
pub mod Keys
mod Tests
use aipowergateway.Prelude.{
  ℕ, suc, ◌+◌, ◌/◌, Bool, true, false, not, ◌&&◌, Option, none, some, List, [], ◌∷◌, ◌++◌, reverse,
  ltb, leb, ◌==◌, if◌then◌else◌, is_nil, is_some, any, take, retain, length, last, unwrap_or,
  or_else, ◌>>=◌,
}
use aipowergateway.Prelude.Text.{Text, text, text_eq, trim_end_matches}
use aipowergateway.Json.{Value, null, str, obj, Fields, get_str, get_field, set_field}

pub data Provider : Type 0 where
  mock deep_seek kimi zhipu code_buddy custom : Provider

unfoldable pub provider_name : Provider → Text
provider_name mock = text "mock"
provider_name deep_seek = text "deepseek"
provider_name kimi = text "kimi"
provider_name zhipu = text "zhipu"
provider_name code_buddy = text "codebuddy"
provider_name custom = text "custom"

unfoldable pub base_url : Provider → Option Text
base_url mock = none
base_url deep_seek = some (text "https://api.deepseek.com")
base_url kimi = some (text "https://api.moonshot.cn/v1")
base_url zhipu = some (text "https://open.bigmodel.cn/api/paas/v4")
base_url code_buddy = some (text "https://copilot.tencent.com/v2")
base_url custom = none

unfoldable pub default_model : Provider → Text
default_model mock = text "mock-7b"
default_model deep_seek = text "deepseek-chat"
default_model kimi = text "moonshot-v1-8k"
default_model zhipu = text "glm-4-flash"
default_model code_buddy = text "deepseek-v4-flash"
default_model custom = text "custom"

unfoldable pub default_models : Provider → List Text
unfolding default_model
default_models code_buddy = text "hy4-preview" ∷ text "deepseek-v4-flash" ∷ []
default_models p = default_model p ∷ []

unfoldable pub from_str : Text → Provider
unfolding text_eq
from_str s =
    if text_eq s (text "mock")
    then mock
    else if text_eq s (text "deepseek")
    then deep_seek
    else if text_eq s (text "kimi")
    then kimi
    else if text_eq s (text "zhipu")
    then zhipu
    else if text_eq s (text "codebuddy")
    then code_buddy
    else custom

abbrev pub is_builtin : Provider → Bool
is_builtin custom = false
is_builtin _ = true

abbrev executor_presets : List Text
executor_presets = text "pair" ∷ text "agent" ∷ []

unfoldable pub is_executor_provider : Text → Bool
unfolding text_eq
is_executor_provider name = any (λ p. text_eq p name) executor_presets

abbrev pub nonempty : Text → Bool
nonempty t = not (is_nil t)

-- `split_ratio` holds the bits of an `f64`; nothing reads it.
pub record BackendEntry : Type 0 where
  pub provider : Text
  pub id : Option Text
  pub api_key : Option Text
  pub api_key_env : Option Text
  pub model : Option Text
  pub models : List Text
  pub base_url : Option Text
  pub split_ratio : Option ℕ
  pub listing_id : Option Text

unfoldable pub backend_id : BackendEntry → Text
backend_id e = unwrap_or e.id e.provider

-- The value if it is there and not empty.
abbrev pub filled : Option Text → Option Text
filled none = none
filled (some t) = if is_nil t then none else some t

-- The list without its empty names, or else the single model.
abbrev pub models_or : List Text → Option Text → List Text → List Text
models_or models model otherwise =
    let from_list = retain nonempty models in
    if is_nil from_list
    then elim (filled model) [ none ↦ otherwise | some m ↦ m ∷ [] ]
    else from_list

unfoldable pub effective_models : BackendEntry → List Text
effective_models e = models_or e.models e.model []

-- What is shown of a key.
unfoldable pub mask : Text → Text
mask k = if ltb 7 (length k) then text "***" ++ reverse (take 4 (reverse k)) else text "***"

module _ (env : Text → Option Text) (upper : Text → Text) where
  abbrev pub official : BackendEntry → Text
  official e = text "AIPOWERLINK_" ++ (upper e.provider ++ text "_API_KEY")

  -- The variable that the entry names.
  abbrev pub named_key : BackendEntry → Option Text
  named_key e = filled e.api_key_env >>= λ name. filled (env name)

  unfoldable pub resolve_api_key : BackendEntry → Option Text
  unfolding text_eq
  resolve_api_key e = or_else (filled e.api_key) (
      or_else (named_key e) (
        or_else (filled (env (official e))) (
          or_else
            (if text_eq e.provider (text "codebuddy")
              then filled (env (text "CODEBUDDY_API_KEY"))
              else none)
            (filled (env (text "AIPOWERLINK_API_KEY"))))))

  unfoldable pub key_source : BackendEntry → Text
  key_source e =
      if is_some (filled e.api_key)
      then text "file"
      else if is_some (named_key e)
      then text "env"
      else if is_some (filled (env (official e)))
      then text "env"
      else if is_some (filled (env (text "AIPOWERLINK_API_KEY")))
      then text "env"
      else text "none"

  unfoldable pub masked_key : BackendEntry → Text
  unfolding mask
  masked_key e = elim (filled e.api_key) [
    | some k ↦ mask k
    | none ↦ elim (filled e.api_key_env) [
      | some name ↦ text "env:" ++ name
      | none ↦
          if is_some (env (official e))
          then text "env:" ++ official e
          else if is_some (env (text "AIPOWERLINK_API_KEY"))
          then text "env:AIPOWERLINK_API_KEY"
          else []
    ]
  ]

pub record OpenAiCompatConfig : Type 0 where
  pub provider : Provider
  pub api_key : Text
  pub model : Option Text
  pub models : List Text
  pub base_url : Option Text
  pub timeout_secs : ℕ
  pub provider_label : Option Text
  pub name : Option Text

unfoldable pub completions_url : OpenAiCompatConfig → Text
unfolding base_url trim_end_matches
completions_url cfg =
    trim_end_matches b'/' (unwrap_or (or_else cfg.base_url (base_url cfg.provider)) [])
    ++ text "/chat/completions"

unfoldable pub effective_model : OpenAiCompatConfig → Text
unfolding default_model
effective_model cfg = unwrap_or cfg.model (default_model cfg.provider)

-- The two implementations of the trait; `compat` without the HTTP client.
pub data Backend : Type 0 where
  mock_backend : Text → Backend
  compat : OpenAiCompatConfig → Text → Text → Backend

unfoldable pub new_compat : OpenAiCompatConfig → Backend
unfolding provider_name
new_compat cfg =
    compat cfg (unwrap_or cfg.name (provider_name cfg.provider))
      (unwrap_or cfg.provider_label (provider_name cfg.provider))

unfoldable pub name : Backend → Text
name (mock_backend m) = text "mock"
name (compat cfg n label) = n

unfoldable pub provider : Backend → Provider
provider (mock_backend m) = mock
provider (compat cfg n label) = cfg.provider

unfoldable pub provider_label : Backend → Text
provider_label (mock_backend m) = text "mock"
provider_label (compat cfg n label) = label

unfoldable pub models : Backend → List Text
unfolding default_models
models (mock_backend m) = m ∷ []
models (compat cfg n label) = models_or cfg.models cfg.model (default_models cfg.provider)

-- `body` as `chat` sends it to the upstream: with a model, the configured one if it names none.
-- Writing a key into `null` makes an object of it, into any other value it panics.
unfoldable pub upstream_body : OpenAiCompatConfig → Value → Option Value
unfolding effective_model set_field get_field
upstream_body cfg null =
    some (obj (Fields.field (text "model") (str (effective_model cfg)) Fields.end))
upstream_body cfg (obj fs) =
    if nonempty (unwrap_or (get_str (text "model") (obj fs)) [])
    then some (obj fs)
    else some (obj (set_field (text "model") (str (effective_model cfg)) fs))
upstream_body cfg v = none
