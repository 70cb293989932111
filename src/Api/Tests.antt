-- ===== src/Api/Tests.antt =====
-- Runs of the handlers, and their laws at such inputs.
use aipowergateway.Prelude.{
  ◌&&◌, ◌≡◌, ◌⊎◌, refl, ◌==◌, true, false, none, some, [], ◌∷◌, if◌then◌else◌, ok, err,
}
use aipowergateway.Prelude.Text.{Text, text, text_eq, starts_with, trim, contains}
use aipowergateway.Prelude.Map.{lookup}
use aipowergateway.Prelude.TextSet.{has}
use aipowergateway.Disk.{working_disk, unsaved}
use aipowergateway.Json.{Value, unsigned, str, obj, Fields, get_field}
use aipowergateway.Auth.{Session, verify, is_member_banned}
use aipowergateway.Member
use aipowergateway.Quota
use aipowergateway.Usage
use aipowergateway.Policy.{
  detect, scan_rules, policy_rules, request_parts, content_parts, extract_request_text,
}
use aipowergateway.Policy
use aipowergateway.Rules.{resolve, RuleSet}
use aipowergateway.Backend.{mock_backend, provider_label}
use aipowergateway.Registry.{route, best_prefix, is_removed}
use aipowergateway.Api.State.{
  ApiState, World, Headers, completed, panicked, bearer_token, enter, prepare_openai_upstream,
  all_failed,
}
use aipowergateway.Api.Chat.{
  chat_completions, serve, try_candidates, charge, rule_set_of, resolution_of,
}
use aipowergateway.Api.Messages.{
  serve_message, candidate, message_resolution, upstream_model, upstream_request,
}
use aipowergateway.Api.Messages.Charged.{serve_message-try_candidates}
use aipowergateway.Protocol.{Json}
use aipowergateway.Api.Chat.Admission.{IsAnswered, chat_completions-completed}
use aipowergateway.Api.Chat.Fallback.{FallsTo, AllFail, offered, serve-FallsTo}

abbrev session : Session
session = record {
  token = text "t";
  member_id = text "m1";
  machine_name = text "m1";
  display_name = text "m1";
  expires_at = 100;
  issued_at = 0;
}

abbrev state : ApiState
state = record {
  auth = record {
    sessions = (text "t", session) ∷ [];
    banned = [];
    banned_ips = [];
    ttl_secs = 0;
    ban_file = unsaved;
    sessions_file = unsaved;
  };
  members = record { inner = []; timeout_secs = 60; gateway_id = [] };
  usage = record { by_member = []; file = none };
  quota = record { quotas = []; file = none };
  policy = record { enabled = true; file = none; mining_hits = 0; deepfake_hits = 0 };
  rules = record { inner = [] };
  backends = record {
    backends = (text "mock", mock_backend (text "mock-7b")) ∷ [];
    prefixes = (text "mock-", text "mock") ∷ [];
    exact = (text "mock-7b", text "mock") ∷ [];
  };
  health = none;
  sharing = true;
}

abbrev headers : Headers
headers = record { authorization = none; x_api_key = some (text "t") }

abbrev reply : Value
reply = obj (
    Fields.field (text "usage")
      (obj (
        Fields.field (text "prompt_tokens") (unsigned 3)
          (Fields.field (text "completion_tokens") (unsigned 4) Fields.end)))
      Fields.end)

abbrev world : World
world = record {
  now = 50;
  seen = 50;
  lower = λ t. t;
  usage_disk = working_disk;
  chat = λ idx b fwd. ok reply;
  header_ok = λ t. true;
}

abbrev body : Value
body = obj (Fields.field (text "model") (str (text "mock-7b")) Fields.end)

abbrev after : ApiState
after = record state {
  members = (Member.upsert 50 (text "m1") (text "m1") [] state.members).0;
  usage = charge world (text "m1") (text "mock") (text "mock-7b") [] reply state.usage;
}

answered :
    chat_completions world headers body state ≡ (completed [] (text "mock-7b") false reply, after)
unfolding chat_completions enter bearer_token verify lookup text_eq starts_with trim contains has
    is_member_banned Quota.check Usage.get Policy.check detect scan_rules policy_rules request_parts
    content_parts extract_request_text get_field serve resolve try_candidates route best_prefix
    is_removed provider_label prepare_openai_upstream
answered = refl

chat_completions-completed_example :
    IsAnswered world headers state body after (text "mock-7b") reply
chat_completions-completed_example =
    chat_completions-completed world headers state body after [] (text "mock-7b") false reply
      answered

-- A rule set that tries the same model twice, and a backend that fails at the first attempt.
abbrev twice : RuleSet
twice = record {
  id = text "rs";
  name = text "cheap";
  version = 2;
  rules =
      record {
        match_model = text "*";
        order = 1;
        strategy = text "fixed";
        candidates = record { model = text "mock-7b"; max_prompt_tokens = none } ∷ [];
        fallback = text "mock-7b" ∷ [];
      }
      ∷ [];
}

abbrev ruled : ApiState
ruled = record state { rules = record { inner = (text "cheap", twice) ∷ [] } }

abbrev shaky : World
shaky = record world { chat = λ idx b fwd. if idx == 0 then err (text "down") else ok reply }

abbrev cheap_body : Value
cheap_body = obj (Fields.field (text "model") (str (text "cheap")) Fields.end)

serve-FallsTo_example :
    (let fwd = (prepare_openai_upstream cheap_body).1 in
      let rule_set = rule_set_of (resolution_of cheap_body ruled) in
      ((upstream : Text) × (resp : Value) × FallsTo shaky fwd ruled upstream resp 0
          (offered cheap_body ruled)
        × ((serve shaky session cheap_body ruled).0 ≡ (
            if shaky.header_ok rule_set && shaky.header_ok upstream
            then completed rule_set upstream (prepare_openai_upstream cheap_body).0 resp
            else panicked)))
      ⊎ (AllFail shaky fwd ruled 0 (offered cheap_body ruled)
          × ((e : Text) × ((serve shaky session cheap_body ruled).0 ≡ all_failed e rule_set))))
unfolding resolve lookup text_eq get_field
serve-FallsTo_example = serve-FallsTo shaky session cheap_body ruled refl

abbrev anthropic_body : Value
anthropic_body = obj (Fields.field (text "model") (str (text "mock-7b")) Fields.end)

abbrev silent : Json
silent = record { print = λ v. []; parse = λ t. none }

serve_message-try_candidates_example :
    (serve_message world silent session anthropic_body state).1
    ≡ (try_candidates world session
        (upstream_model world silent anthropic_body)
        (rule_set_of (message_resolution world silent anthropic_body state))
        true
        (upstream_request world silent anthropic_body)
        0
        (candidate
            (upstream_model world silent anthropic_body)
            (message_resolution world silent anthropic_body state)
          ∷ [])
        []
        state).1
serve_message-try_candidates_example =
    serve_message-try_candidates world silent session anthropic_body state true []
