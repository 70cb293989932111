-- ===== src/Protocol/Choice.antt =====
-- crates/lan-share/src/api.rs: the first choice of a response.
use aipowergateway.Prelude.{Option, some, List, [], unwrap_or, head, ◌>>=◌}
use aipowergateway.Prelude.Text.{Text, text}
use aipowergateway.Json.{Value, get, get_str, get_array, get_field}

pub record OpenAiChoice : Type 0 where
  pub content : Text
  pub tool_calls : List Value
  pub finish_reason : Option Text

unfoldable pub first_choice : Value → Option OpenAiChoice
unfolding get_field
first_choice resp = get_array (text "choices") resp >>= head >>= λ choice.
    get (text "message") choice >>= λ message. some (record {
      content = unwrap_or (get_str (text "content") message) [];
      tool_calls = unwrap_or (get_array (text "tool_calls") message) [];
      finish_reason = get_str (text "finish_reason") choice;
    })
