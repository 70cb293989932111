-- ===== src/Protocol/Stream.antt =====
-- crates/lan-share/src/api.rs: a complete response, replayed as a stream of events.
use aipowergateway.Prelude.{
  ℕ, ◌+◌, none, some, List, [], ◌∷◌, ◌++◌, if◌then◌else◌, is_nil, map, unwrap_or, add_u64, ◌>>=◌,
}
use aipowergateway.Prelude.Text.{Text, text, text_eq}
use aipowergateway.Json.{
  Value, null, str, unsigned, arr, obj, end, of_elems, get, get_str, get_u64, get_field,
}
use aipowergateway.Api.{extract_openai_usage}
use aipowergateway.Protocol.{Json, object}
use aipowergateway.Protocol.Choice.{first_choice}
use aipowergateway.Protocol.Anthropic.{blocks_of, stop_reason, is_kind}

abbrev pub one : Value → Value
one v = arr (of_elems (v ∷ []))

-- The chunks of a response in the format of OpenAI.
module _ (resp : Value) where
  abbrev pub chunk : List (Text × Value) → Value → List (Text × Value) → Value
  chunk delta finish more = object (
      (text "id", str (unwrap_or (get_str (text "id") resp) (text "chatcmpl-mock")))
      ∷ (text "object", str (text "chat.completion.chunk"))
      ∷ (text "created", unsigned (unwrap_or (get_u64 (text "created") resp) 0))
      ∷ (text "model", str (unwrap_or (get_str (text "model") resp) (text "default")))
      ∷ (
        text "choices",
        one (
            object (
              (text "index", unsigned 0)
              ∷ (text "delta", object delta)
              ∷ (text "finish_reason", finish)
              ∷ [])),
      )
      ∷ more)

  abbrev pub call_chunk : Value → Value
  call_chunk tc =
      let function = get (text "function") tc in
      chunk
        ((
          text "tool_calls",
          one (
              object (
                (text "index", unsigned (unwrap_or (get_u64 (text "index") tc) 0))
                ∷ (text "id", str (unwrap_or (get_str (text "id") tc) (text "call_0")))
                ∷ (text "type", str (text "function"))
                ∷ (
                  text "function",
                  object (
                      (text "name", str (unwrap_or (function >>= get_str (text "name")) []))
                      ∷ (
                        text "arguments",
                        str (unwrap_or (function >>= get_str (text "arguments")) []),
                      )
                      ∷ []),
                )
                ∷ [])),
        )
          ∷ [])
        null []

  abbrev pub finish_reason : Text
  finish_reason = elim (first_choice resp >>= λ c. c.finish_reason) [
    | none ↦ text "stop"
    | some r ↦
        if text_eq r (text "tool_calls")
        then text "tool_calls"
        else if text_eq r (text "length")
        then text "length"
        else text "stop"
  ]

  abbrev pub spoken_chunks : List Value
  spoken_chunks = elim (first_choice resp) [
    | none ↦ []
    | some c ↦
        (if is_nil c.content then [] else chunk ((text "content", str c.content) ∷ []) null [] ∷ [])
        ++ map call_chunk c.tool_calls
  ]

  abbrev pub last_chunk : Value
  last_chunk =
      let (pt, ct) = extract_openai_usage resp in
      chunk [] (str finish_reason) (
        (
          text "usage",
          object (
              (text "prompt_tokens", unsigned pt)
              ∷ (text "completion_tokens", unsigned ct)
              ∷ (text "total_tokens", unsigned (add_u64 pt ct))
              ∷ []),
        )
        ∷ [])

  unfoldable pub chunks : List Value
  unfolding get_field first_choice extract_openai_usage text_eq
  chunks =
      chunk ((text "role", str (text "assistant")) ∷ (text "content", str []) ∷ []) null []
      ∷ (spoken_chunks ++ last_chunk ∷ [])

module _ (j : Json) where
  abbrev pub data_line : Text → Text
  data_line payload = text "data: " ++ (payload ++ text "\n\n")

  abbrev pub data_lines : List Value → Text
  data_lines [] = data_line (text "[DONE]")
  data_lines (v ∷ vs) = data_line (j.print v) ++ data_lines vs

  unfoldable pub openai_sse_stream : Value → Text
  unfolding chunks
  openai_sse_stream resp = data_lines (chunks resp)

  -- The events of Anthropic.
  abbrev pub event : Text → Value → Text
  event name v = text "event: " ++ (name ++ (text "\ndata: " ++ (j.print v ++ text "\n\n")))

  abbrev pub delta_event : ℕ → Value → Text
  delta_event i delta = event (text "content_block_delta") (
      object (
        (text "type", str (text "content_block_delta"))
        ∷ (text "index", unsigned i)
        ∷ (text "delta", delta)
        ∷ []))

  abbrev pub block_delta : ℕ → Value → Text
  block_delta i block =
      if is_kind (text "text") block
      then delta_event i (
          object (
            (text "type", str (text "text_delta"))
            ∷ (text "text", str (unwrap_or (get_str (text "text") block) []))
            ∷ []))
      else if is_kind (text "tool_use") block
      then delta_event i (
          object (
            (text "type", str (text "input_json_delta"))
            ∷ (text "partial_json", str (j.print (unwrap_or (get (text "input") block) (obj end))))
            ∷ []))
      else []

  unfoldable pub block_events : ℕ → List Value → Text
  unfolding get_field text_eq
  block_events i [] = []
  block_events i (block ∷ blocks) =
      event (text "content_block_start") (
        object (
          (text "type", str (text "content_block_start"))
          ∷ (text "index", unsigned i)
          ∷ (text "content_block", block)
          ∷ []))
      ++ (block_delta i block
          ++ (event (text "content_block_stop") (
                object (
                  (text "type", str (text "content_block_stop")) ∷ (text "index", unsigned i) ∷ []))
              ++ block_events (i + 1) blocks))

  unfoldable pub anthropic_sse_stream : Value → Text
  unfolding get_field extract_openai_usage blocks_of block_events stop_reason
  anthropic_sse_stream resp =
      let (pt, ct) = extract_openai_usage resp in
      event (text "message_start") (
        object (
          (text "type", str (text "message_start"))
          ∷ (
            text "message",
            object (
                (text "id", str (text "msg_mock_0001"))
                ∷ (text "type", str (text "message"))
                ∷ (text "role", str (text "assistant"))
                ∷ (text "model", str (unwrap_or (get_str (text "model") resp) (text "default")))
                ∷ (text "content", arr (of_elems []))
                ∷ (
                  text "usage",
                  object (
                      (text "input_tokens", unsigned pt) ∷ (text "output_tokens", unsigned 0) ∷ []),
                )
                ∷ []),
          )
          ∷ []))
      ++ (block_events 0 (blocks_of j resp)
          ++ (event (text "message_delta") (
                object (
                  (text "type", str (text "message_delta"))
                  ∷ (
                    text "delta",
                    object (
                        (text "stop_reason", str (stop_reason resp))
                        ∷ (text "stop_sequence", null)
                        ∷ []),
                  )
                  ∷ (text "usage", object ((text "output_tokens", unsigned ct) ∷ []))
                  ∷ []))
              ++ event (text "message_stop")
                  (object ((text "type", str (text "message_stop")) ∷ []))))
