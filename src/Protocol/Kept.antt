-- ===== src/Protocol/Kept.antt =====
-- What of a response is kept when it is replayed as a stream and put back together.
use aipowergateway.Prelude.{ℕ, ◌≡◌, ◌≢◌, Option, some, [], head, unwrap_or, ◌>>=◌, add_u64}
use aipowergateway.Prelude.Text.{Text, text}
use aipowergateway.Json.{Value, get, get_array, get_str, get_u64}

-- The first choice of a response that has a message, and that message.
abbrev pub choice_of : Value → Option Value
choice_of v = get_array (text "choices") v >>= head

abbrev pub message_of : Value → Option Value
message_of v = choice_of v >>= get (text "message")

abbrev pub reason_of : Value → Option Text
reason_of v = message_of v >>= λ m. choice_of v >>= get_str (text "finish_reason")

abbrev pub tokens : Text → Value → ℕ
tokens name v = unwrap_or (get (text "usage") v >>= get_u64 name) 0

-- A reason other than these two becomes `stop`.
pub data Ends : Option Text → Text → Type 0 where
  calls : Ends (some (text "tool_calls")) (text "tool_calls")
  length : Ends (some (text "length")) (text "length")
  stop :
      {reason : Option Text}
      → reason ≢ some (text "tool_calls")
      → reason ≢ some (text "length")
      → Ends reason (text "stop")

-- What a replayed response keeps, member by member.
pub record IsReplay (resp v : Value) : Type 0 where
  pub id :
      get_str (text "id") v ≡ some (unwrap_or (get_str (text "id") resp) (text "chatcmpl-mock"))
  pub model :
      get_str (text "model") v ≡ some (unwrap_or (get_str (text "model") resp) (text "default"))
  pub created : get_u64 (text "created") v ≡ some (unwrap_or (get_u64 (text "created") resp) 0)
  pub role : message_of v >>= get_str (text "role") ≡ some (text "assistant")
  pub content :
      message_of v >>= get_str (text "content")
      ≡ some (unwrap_or (message_of resp >>= get_str (text "content")) [])
  pub ending : (reason : Text) × (reason_of v ≡ some reason) × Ends (reason_of resp) reason
  pub prompt :
      get (text "usage") v >>= get_u64 (text "prompt_tokens")
      ≡ some (tokens (text "prompt_tokens") resp)
  pub completion :
      get (text "usage") v >>= get_u64 (text "completion_tokens")
      ≡ some (tokens (text "completion_tokens") resp)
  pub total :
      get (text "usage") v >>= get_u64 (text "total_tokens")
      ≡ some (add_u64 (tokens (text "prompt_tokens") resp) (tokens (text "completion_tokens") resp))
