-- ===== src/Protocol/Tests.antt =====
-- The theorems on the protocols at one response.
use aipowergateway.Prelude.{
  ◌⊎◌, ◌≡◌, refl, Option, none, some, List, [], ◌∷◌, ◌++◌, if◌then◌else◌, head, ◌>>=◌, ok, map,
}
use aipowergateway.Prelude.Text.{Text, text, text_eq}
use aipowergateway.Json.{Value, str, unsigned, arr, of_elems, get, get_str, get_array, get_field}
use aipowergateway.Api.{extract_openai_usage}
use aipowergateway.Protocol.{Json, object}
use aipowergateway.Protocol.Choice.{first_choice}
use aipowergateway.Protocol.Anthropic.{message, blocks_of}
use aipowergateway.Protocol.Stream.{chunks, openai_sse_stream}
use aipowergateway.Protocol.Assemble.{assemble_sse_response}
use aipowergateway.Protocol.Kept.{IsReplay}
use aipowergateway.Protocol.Replayed.{assemble_sse_response-openai_sse_stream}
use aipowergateway.Protocol.Tools.{
  IsSpoken, printed_call, answered_text, answered_calls, message-blocks_of,
}

-- A response with a text and the call of a tool.
abbrev reply : Value
reply = object (
    (text "id", str (text "x"))
    ∷ (
      text "choices",
      arr (
          of_elems (
            object (
              (
                text "message",
                object (
                    (text "content", str (text "hi"))
                    ∷ (
                      text "tool_calls",
                      arr (of_elems (object ((text "id", str (text "t1")) ∷ []) ∷ [])),
                    )
                    ∷ []),
              )
              ∷ (text "finish_reason", str (text "length"))
              ∷ [])
            ∷ [])),
    )
    ∷ (text "usage", object ((text "prompt_tokens", unsigned 3) ∷ []))
    ∷ [])

-- A printer that numbers the four chunks of the response.
abbrev delta_of : Value → Option Value
delta_of v = get_array (text "choices") v >>= head >>= get (text "delta")

abbrev number : Value → Text
number v = elim (get (text "usage") v) [
  | some u ↦ text "3"
  | none ↦ elim (delta_of v >>= get_str (text "role")) [
    | some r ↦ text "0"
    | none ↦ elim (delta_of v >>= get_str (text "content")) [ some c ↦ text "1" | none ↦ text "2" ]
  ]
]

abbrev nth : Text → List Value → Option Value
nth n (a ∷ b ∷ c ∷ d ∷ []) =
    if text_eq n (text "{0}")
    then some a
    else if text_eq n (text "{1}")
    then some b
    else if text_eq n (text "{2}")
    then some c
    else some d
nth n vs = none

abbrev numbered : Json
numbered = record {
  print = λ v. text "{" ++ (number v ++ text "}");
  parse = λ t. nth t (chunks reply);
}

assemble_sse_response-openai_sse_stream_example :
    (v : Value) × (assemble_sse_response numbered (openai_sse_stream numbered reply) ≡ ok v)
    × IsReplay reply v
unfolding chunks first_choice get_field text_eq extract_openai_usage
assemble_sse_response-openai_sse_stream_example =
    assemble_sse_response-openai_sse_stream numbered reply (
      record { body = text "0"; printed = refl; flat = refl; reads = refl },
      (
        record { body = text "1"; printed = refl; flat = refl; reads = refl },
        (
          record { body = text "2"; printed = refl; flat = refl; reads = refl },
          (record { body = text "3"; printed = refl; flat = refl; reads = refl }, tt),
        ),
      ),
    )

message-blocks_of_example :
    (let sent = message numbered (text "gpt") (
        object (
          (text "role", str (text "assistant"))
          ∷ (text "content", arr (of_elems (blocks_of numbered reply)))
          ∷ [])) in
      ((answered_text reply ≡ []) × (answered_calls reply ≡ []) × (sent ≡ []))
      ⊎ ((m : Value) × (sent ≡ m ∷ [])
          × IsSpoken numbered
              (answered_text reply)
              (map (printed_call numbered) (answered_calls reply))
              m))
message-blocks_of_example = message-blocks_of numbered (text "gpt") reply
