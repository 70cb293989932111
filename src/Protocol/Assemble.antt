-- ===== src/Protocol/Assemble.antt =====
-- crates/lan-share/src/backend.rs, `assemble_sse_response`: one response from the text of a stream.
use aipowergateway.Prelude.{
  ℕ, true, false, Option, none, some, List, [], ◌∷◌, ◌++◌, ◌==◌, if◌then◌else◌, is_nil, head,
  or_else, unwrap_or, Result, ok, err, ◌>>=◌,
}
use aipowergateway.Prelude.Text.{Text, text, text_eq, starts_with, trim}
use aipowergateway.Json.{
  Value, str, unsigned, arr, of_elems, get, get_str, get_u64, get_array, get_field, is_null,
}
use aipowergateway.Protocol.{Json, object}

-- `str::lines`: without the newline, without a carriage return before it, and without an empty last
-- line.
abbrev pub chop : Text → Text
chop [] = []
chop (c ∷ []) = if c == 13 then [] else c ∷ []
chop (c ∷ d ∷ s) = c ∷ chop (d ∷ s)

unfoldable pub lines_from : Text → Text → List Text
lines_from line [] = if is_nil line then [] else line ∷ []
lines_from line (c ∷ s) =
    let more = lines_from (line ++ c ∷ []) s in
    if c == 10 then chop line ∷ lines_from [] s else more

unfoldable pub lines : Text → List Text
unfolding lines_from
lines s = lines_from [] s

-- The variables of the loop.
pub record Assembly : Type 0 where
  pub id : Option Text
  pub model : Option Text
  pub created : Option ℕ
  pub content : Text
  pub reasoning : Text
  pub finish_reason : Text
  pub usage : Option Value

abbrev pub start : Assembly
start = record {
  id = none;
  model = none;
  created = none;
  content = [];
  reasoning = [];
  finish_reason = text "stop";
  usage = none;
}

-- What one chunk adds.
unfoldable pub absorb : Value → Assembly → Assembly
unfolding get_field
absorb chunk a =
    let choice = get_array (text "choices") chunk >>= head in
    let delta = choice >>= get (text "delta") in
    let finish = unwrap_or (choice >>= get_str (text "finish_reason")) [] in
    record {
      id = or_else a.id (get_str (text "id") chunk);
      model = or_else a.model (get_str (text "model") chunk);
      created = or_else a.created (get_u64 (text "created") chunk);
      content = a.content ++ unwrap_or (delta >>= get_str (text "content")) [];
      reasoning = a.reasoning ++ unwrap_or (delta >>= get_str (text "reasoning_content")) [];
      finish_reason = if is_nil finish then a.finish_reason else finish;
      usage = elim (get (text "usage") chunk) [
        | none ↦ a.usage
        | some u ↦ if is_null u then a.usage else some u
      ];
    }

abbrev pub drop_five : Text → Text
drop_five (a ∷ b ∷ c ∷ d ∷ e ∷ s) = s
drop_five s = []

-- The payload of a line, if it is a data line.
unfoldable pub payload_of : Text → Option Text
unfolding trim starts_with
payload_of l =
    let line = trim l in
    if starts_with line (text "data:") then some (trim (drop_five line)) else none

-- The loop over the lines, until the end marker. An error is the text of a chunk that is no JSON.
module _ (j : Json) where
  unfoldable pub absorb_lines : List Text → Assembly → Result Assembly Text
  unfolding payload_of text_eq absorb
  absorb_lines [] a = ok a
  absorb_lines (l ∷ ls) a = elim (payload_of l) [
    | none ↦ absorb_lines ls a
    | some payload ↦ elim (text_eq payload (text "[DONE]")) [
      | true ↦ ok a
      | false ↦ elim (j.parse payload) [
        | none ↦ err payload
        | some chunk ↦ absorb_lines ls (absorb chunk a)
      ]
    ]
  ]

-- The response that the variables make.
unfoldable pub assembled : Assembly → Value
assembled a = object (
    (text "id", str (unwrap_or a.id (text "chatcmpl-aipg-codebuddy")))
    ∷ (text "object", str (text "chat.completion"))
    ∷ (text "created", unsigned (unwrap_or a.created 0))
    ∷ (text "model", str (unwrap_or a.model []))
    ∷ (
      text "choices",
      arr (
          of_elems (
            object (
              (text "index", unsigned 0)
              ∷ (
                text "message",
                object (
                    (text "role", str (text "assistant"))
                    ∷ (text "content", str a.content)
                    ∷ (if is_nil a.reasoning
                        then []
                        else (text "reasoning_content", str a.reasoning) ∷ [])),
              )
              ∷ (text "finish_reason", str a.finish_reason)
              ∷ [])
            ∷ [])),
    )
    ∷ elim a.usage [ none ↦ [] | some u ↦ (text "usage", u) ∷ [] ])

module _ (j : Json) where
  unfoldable pub assemble_sse_response : Text → Result Value Text
  unfolding lines absorb_lines assembled
  assemble_sse_response body = elim (absorb_lines j (lines body) start) [
    | err e ↦ err e
    | ok a ↦ ok (assembled a)
  ]
