-- ===== src/Protocol/Anthropic.antt =====
-- crates/lan-share/src/api.rs: Anthropic requests to OpenAI requests, OpenAI responses to Anthropic
-- responses.
use aipowergateway.Prelude.{
  Bool, not, Option, none, some, List, [], ◌∷◌, ◌++◌, ◌&&◌, ◌||◌, if◌then◌else◌, is_nil, map,
  filter_map, concat_map, unwrap_or, ◌>>=◌,
}
use aipowergateway.Prelude.Text.{Text, text, text_eq, join, contains}
use aipowergateway.Json.{
  Value, null, str, unsigned, arr, obj, end, elems, of_elems, get, get_str, get_u64, get_array,
  get_field, as_str,
}
use aipowergateway.Api.{extract_openai_usage}
use aipowergateway.Protocol.{Json, object}
use aipowergateway.Protocol.Choice.{first_choice}

abbrev pub newline : Text
newline = text "\n"

-- The texts of an array of blocks.
abbrev pub texts_of : List Value → List Text
texts_of blocks = filter_map (λ b. get_str (text "text") b) blocks

-- A value that is a text, or the texts of an array.
abbrev pub text_of : Option Value → Text
text_of (some (str s)) = s
text_of (some (arr vs)) = join newline (texts_of (elems vs))
text_of _ = []

abbrev pub is_kind : Text → Value → Bool
is_kind kind block = text_eq (unwrap_or (get_str (text "type") block) (text "text")) kind

-- The parts of a message: its texts, its calls of tools, the results of tools.
abbrev pub text_part : Value → Option Text
text_part b =
    if is_kind (text "tool_use") b || is_kind (text "tool_result") b
    then none
    else get_str (text "text") b

abbrev pub tool_result : Value → Option Value
tool_result b =
    if is_kind (text "tool_result") b
    then some (
        object (
          (text "role", str (text "tool"))
          ∷ (text "content", str (text_of (get (text "content") b)))
          ∷ (text "tool_call_id", str (unwrap_or (get_str (text "tool_use_id") b) (text "call_0")))
          ∷ []))
    else none

abbrev pub tool : Value → Option Value
tool t =
    let name = unwrap_or (get_str (text "name") t) [] in
    if is_nil name
    then none
    else some (
        object (
          (text "type", str (text "function"))
          ∷ (
            text "function",
            object (
                (text "name", str name)
                ∷ (text "description", str (unwrap_or (get_str (text "description") t) []))
                ∷ (text "parameters", unwrap_or (get (text "input_schema") t) (obj end))
                ∷ []),
          )
          ∷ []))

abbrev pub text_block : Text → Value
text_block s = object ((text "type", str (text "text")) ∷ (text "text", str s) ∷ [])

module _ (j : Json) where
  abbrev pub tool_call : Value → Option Value
  tool_call b =
      if is_kind (text "tool_use") b
      then some (
          object (
            (text "id", str (unwrap_or (get_str (text "id") b) (text "call_0")))
            ∷ (text "type", str (text "function"))
            ∷ (
              text "function",
              object (
                  (text "name", str (unwrap_or (get_str (text "name") b) []))
                  ∷ (text "arguments", str (j.print (unwrap_or (get (text "input") b) (obj end))))
                  ∷ []),
            )
            ∷ []))
      else none

  -- The message of texts and calls, if there are any.
  abbrev pub spoken : Text → Text → Text → List Value → List Value
  spoken model role content calls =
      if not (is_nil content) || not (is_nil calls)
      then object (
          (text "role", str role)
          ∷ (text "content", str content)
          ∷ ((if is_nil calls then [] else (text "tool_calls", arr (of_elems calls)) ∷ [])
              ++ (if text_eq role (text "assistant") && contains model (text "deepseek")
                  then (text "reasoning_content", str []) ∷ []
                  else [])))
        ∷ []
      else []

  unfoldable pub message : Text → Value → List Value
  unfolding get_field text_eq join contains
  message model m =
      let role = unwrap_or (get_str (text "role") m) (text "user") in
      elim (unwrap_or (get (text "content") m) (str [])) [
        | str s ↦ object ((text "role", str role) ∷ (text "content", str s) ∷ []) ∷ []
        | arr vs ↦
            let blocks = elems vs in
            spoken model role (join newline (filter_map text_part blocks))
              (filter_map tool_call blocks)
            ++ filter_map tool_result blocks
        | _ ↦ object ((text "role", str role) ∷ (text "content", str []) ∷ []) ∷ []
      ]

  unfoldable pub anthropic_to_openai : Value → Value
  unfolding get_field join message
  anthropic_to_openai body =
      let model = unwrap_or (get_str (text "model") body) (text "default") in
      let system = text_of (get (text "system") body) in
      let tools = filter_map tool (unwrap_or (get_array (text "tools") body) []) in
      let messages = unwrap_or (get_array (text "messages") body) [] in
      object (
        (text "model", str model)
        ∷ (text "max_tokens", unsigned (unwrap_or (get_u64 (text "max_tokens") body) 4096))
        ∷ (
          text "messages",
          arr (
              of_elems (
                (if is_nil system
                  then []
                  else object
                      ((text "role", str (text "system")) ∷ (text "content", str system) ∷ [])
                    ∷ [])
                ++ concat_map (message model) messages)),
        )
        ∷ (if is_nil tools then [] else (text "tools", arr (of_elems tools)) ∷ []))

  -- The arguments of a call are a text of JSON; one that cannot be read stays as it is.
  abbrev pub call_input : Value → Value
  call_input tc =
      let arguments = get (text "function") tc >>= get (text "arguments") in
      unwrap_or (arguments >>= as_str >>= j.parse) (unwrap_or arguments (obj end))

  abbrev pub tool_use : Value → Value
  tool_use tc = object (
      (text "type", str (text "tool_use"))
      ∷ (text "id", str (unwrap_or (get_str (text "id") tc) (text "call_0")))
      ∷ (text "name", str (unwrap_or (get (text "function") tc >>= get_str (text "name")) []))
      ∷ (text "input", call_input tc)
      ∷ [])

  -- The blocks of a response, never none, and the reason of its end.
  unfoldable pub blocks_of : Value → List Value
  unfolding get_field first_choice
  blocks_of resp =
      let blocks : List Value = elim (first_choice resp) [
        | none ↦ []
        | some c ↦
            (if is_nil c.content then [] else text_block c.content ∷ [])
            ++ map tool_use c.tool_calls
      ] in
      if is_nil blocks then text_block [] ∷ [] else blocks

unfoldable pub stop_reason : Value → Text
unfolding first_choice text_eq
stop_reason resp = elim (first_choice resp >>= λ c. c.finish_reason) [
  | none ↦ text "end_turn"
  | some r ↦
      if text_eq r (text "tool_calls")
      then text "tool_use"
      else if text_eq r (text "length")
      then text "max_tokens"
      else text "end_turn"
]

module _ (j : Json) where
  unfoldable pub openai_to_anthropic : Value → Value
  unfolding get_field extract_openai_usage blocks_of stop_reason
  openai_to_anthropic resp =
      let (pt, ct) = extract_openai_usage resp in
      object (
        (text "id", str (text "msg_mock_0001"))
        ∷ (text "type", str (text "message"))
        ∷ (text "role", str (text "assistant"))
        ∷ (text "model", str (unwrap_or (get_str (text "model") resp) (text "default")))
        ∷ (text "content", arr (of_elems (blocks_of j resp)))
        ∷ (text "stop_reason", str (stop_reason resp))
        ∷ (text "stop_sequence", null)
        ∷ (
          text "usage",
          object ((text "input_tokens", unsigned pt) ∷ (text "output_tokens", unsigned ct) ∷ []),
        )
        ∷ [])
