-- ===== src/Protocol/Tools.antt =====
-- An answer with calls of tools, which an Anthropic client sends back in its next request.
use aipowergateway.Prelude.{
  ◌≡◌, ◌⊎◌, inl, inr, head, Option-cases, Bool-cases, refl, ◌∙◌, ap, Option, none, some, List, [],
  ◌∷◌, ◌++◌, if◌then◌else◌, is_nil, map, filter_map, unwrap_or, ◌>>=◌,
}
use mathlib.Core.List.{append-nil}
use aipowergateway.Prelude.Text.{Text, text, text_eq, join, contains}
use aipowergateway.Json.{
  Value, null, bool, unsigned, negative, float, obj, end, as_str, get_array, str, arr, of_elems,
  elems-of_elems, get, get_str, get_field,
}
use aipowergateway.Protocol.{Json, object}
use aipowergateway.Protocol.Choice.{first_choice}
use aipowergateway.Protocol.Kept.{message_of}
use aipowergateway.Protocol.Anthropic.{
  text_part, tool_result, tool_call, tool_use, call_input, spoken, message, blocks_of, text_block,
  newline,
}

-- The text and the calls of the message of the first choice.
abbrev pub answered_text : Value → Text
answered_text resp = unwrap_or (message_of resp >>= get_str (text "content")) []

abbrev pub answered_calls : Value → List Value
answered_calls resp = unwrap_or (message_of resp >>= get_array (text "tool_calls")) []

module _ (j : Json) where
  -- The arguments of a call: a text is what it reads as, or stays a text; none is an object.
  abbrev pub arguments_of : Option Value → Value
  arguments_of none = obj end
  arguments_of (some (str s)) = unwrap_or (j.parse s) (str s)
  arguments_of (some v) = v

  call_input_lem :
      (tc : Value)
      → call_input j tc ≡ arguments_of (get (text "function") tc >>= get (text "arguments"))
  call_input_lem tc = go (get (text "function") tc >>= get (text "arguments"))
    where
      go :
          (o : Option Value)
          → unwrap_or (o >>= as_str >>= j.parse) (unwrap_or o (obj end)) ≡ arguments_of o
      go none = refl
      go (some null) = refl
      go (some (bool b)) = refl
      go (some (unsigned n)) = refl
      go (some (negative n)) = refl
      go (some (float n)) = refl
      go (some (str s)) = refl
      go (some (arr vs)) = refl
      go (some (obj fs)) = refl

  -- The call of a tool with its id and name, and its arguments printed again.
  abbrev pub printed_call : Value → Value
  printed_call tc = object (
      (text "id", str (unwrap_or (get_str (text "id") tc) (text "call_0")))
      ∷ (text "type", str (text "function"))
      ∷ (
        text "function",
        object (
            (text "name", str (unwrap_or (get (text "function") tc >>= get_str (text "name")) []))
            ∷ (
              text "arguments",
              str (j.print (arguments_of (get (text "function") tc >>= get (text "arguments")))),
            )
            ∷ []),
      )
      ∷ [])

  calls_again :
      (tcs : List Value) → filter_map (tool_call j) (map (tool_use j) tcs) ≡ map printed_call tcs
  unfolding get_field text_eq
  calls_again [] = refl
  calls_again (tc ∷ tcs) = rw (call_input_lem tc) (ap (λ l. printed_call tc ∷ l) (calls_again tcs))

  no_texts : (tcs : List Value) → filter_map text_part (map (tool_use j) tcs) ≡ []
  unfolding get_field text_eq
  no_texts [] = refl
  no_texts (tc ∷ tcs) = no_texts tcs

  no_results : (tcs : List Value) → filter_map tool_result (map (tool_use j) tcs) ≡ []
  unfolding get_field text_eq
  no_results [] = refl
  no_results (tc ∷ tcs) = no_results tcs

  -- The parts of the blocks of an answer.
  parts :
      (t : Text) (tcs bs : List Value)
      → bs ≡ (
          if is_nil ((if is_nil t then [] else text_block t ∷ []) ++ map (tool_use j) tcs)
          then text_block [] ∷ []
          else (if is_nil t then [] else text_block t ∷ []) ++ map (tool_use j) tcs)
      → (join newline (filter_map text_part bs) ≡ t)
        × (filter_map (tool_call j) bs ≡ map printed_call tcs)
        × (filter_map tool_result bs ≡ [])
  unfolding get_field text_eq join
  parts [] [] bs e = (
    ap (λ l. join newline (filter_map text_part l)) e,
    ap (λ l. filter_map (tool_call j) l) e,
    ap (λ l. filter_map tool_result l) e,
  )
  parts [] (tc ∷ tcs) bs e = (
    ap (λ l. join newline (filter_map text_part l)) e ∙ ap (join newline) (no_texts tcs),
    ap (λ l. filter_map (tool_call j) l) e ∙ calls_again (tc ∷ tcs),
    ap (λ l. filter_map tool_result l) e ∙ no_results tcs,
  )
  parts (c ∷ t) tcs bs e = (
    ap (λ l. join newline (filter_map text_part l)) e
        ∙ ap (λ l. join newline ((c ∷ t) ∷ l)) (no_texts tcs),
    ap (λ l. filter_map (tool_call j) l) e ∙ calls_again tcs,
    ap (λ l. filter_map tool_result l) e ∙ no_results tcs,
  )

  abbrev blocks : Text → List Value → List Value
  blocks t tcs = (if is_nil t then [] else text_block t ∷ []) ++ map (tool_use j) tcs

  choice_blocks :
      (resp : Value)
      → elim (first_choice resp) [
        | none ↦ []
        | some c ↦
            (if is_nil c.content then [] else text_block c.content ∷ [])
            ++ map (tool_use j) c.tool_calls
      ]
        ≡ blocks (answered_text resp) (answered_calls resp)
  unfolding first_choice
  choice_blocks resp = elim (Option-cases (get_array (text "choices") resp >>= head)) [
    | inl e ↦ rw (first_choice, e) refl
    | inr (c, e) ↦ elim (Option-cases (get (text "message") c)) [
      | inl k ↦ rw (first_choice, e, k) refl
      | inr (m, k) ↦ rw (first_choice, e, k) refl
    ]
  ]

  blocks_lem :
      (resp : Value)
      → blocks_of j resp ≡ (
          if is_nil (blocks (answered_text resp) (answered_calls resp))
          then text_block [] ∷ []
          else blocks (answered_text resp) (answered_calls resp))
  unfolding blocks_of
  blocks_lem resp =
      ap (λ (bs : List Value). if is_nil bs then text_block [] ∷ [] else bs) (choice_blocks resp)

  message-spoken :
      (model : Text) (resp : Value)
      → message j model (
          object (
            (text "role", str (text "assistant"))
            ∷ (text "content", arr (of_elems (blocks_of j resp)))
            ∷ []))
        ≡ spoken j model
            (text "assistant")
            (answered_text resp)
            (map printed_call (answered_calls resp))
  unfolding message get_field text_eq
  message-spoken model resp =
      let whole = elems-of_elems (blocks_of j resp) in
      let (texts, calls, results) =
        parts (answered_text resp) (answered_calls resp) (blocks_of j resp) (blocks_lem resp) in
      ap
        (λ (bs : List Value).
          spoken j model (text "assistant") (join newline (filter_map text_part bs))
            (filter_map (tool_call j) bs)
          ++ filter_map tool_result bs)
        whole
      ∙ ap
          (λ (t : Text).
            spoken j model (text "assistant") t (filter_map (tool_call j) (blocks_of j resp))
            ++ filter_map tool_result (blocks_of j resp))
          texts
      ∙ ap
          (λ (l : List Value).
            spoken j model (text "assistant") (answered_text resp) l
            ++ filter_map tool_result (blocks_of j resp))
          calls
      ∙ ap
          (λ (l : List Value).
            spoken j model (text "assistant") (answered_text resp)
              (map printed_call (answered_calls resp))
            ++ l)
          results
      ∙ append-nil _

  -- A message of the assistant with a text and calls.
  pub record IsSpoken (t : Text) (calls : List Value) (m : Value) : Type 0 where
    pub role : get_str (text "role") m ≡ some (text "assistant")
    pub content : get_str (text "content") m ≡ some t
    pub tool_calls : unwrap_or (get_array (text "tool_calls") m) [] ≡ calls

  spoken-IsSpoken :
      (model t : Text) (calls : List Value)
      → ((t ≡ []) × (calls ≡ []) × (spoken j model (text "assistant") t calls ≡ []))
        ⊎ ((m : Value) × (spoken j model (text "assistant") t calls ≡ m ∷ []) × IsSpoken t calls m)
  unfolding get_field text_eq
  spoken-IsSpoken model [] [] = inl (refl, refl, refl)
  spoken-IsSpoken model (x ∷ t) [] = elim (Bool-cases (contains model (text "deepseek"))) [
    | inl e ↦ inr (_, refl, record { role = refl; content = refl; tool_calls = rw (e) refl })
    | inr e ↦ inr (_, refl, record { role = refl; content = refl; tool_calls = rw (e) refl })
  ]
  spoken-IsSpoken model [] (c ∷ calls) =
      inr (_, refl, record { role = refl; content = refl; tool_calls = elems-of_elems (c ∷ calls) })
  spoken-IsSpoken model (x ∷ t) (c ∷ calls) =
      inr (_, refl, record { role = refl; content = refl; tool_calls = elems-of_elems (c ∷ calls) })

  none_printed : (tcs : List Value) → map printed_call tcs ≡ [] → tcs ≡ []
  none_printed [] e = refl
  none_printed (tc ∷ tcs) e = cc

  -- The blocks of an answer, sent back by the client as a message of the assistant, become one
  -- message of OpenAI with the text of the answer and its calls: each with its id and its name, and
  -- its arguments printed again. An answer with neither becomes no message, and no message of a tool
  -- is made.
  pub message-blocks_of :
      (model : Text) (resp : Value)
      → (let sent = message j model (
            object (
              (text "role", str (text "assistant"))
              ∷ (text "content", arr (of_elems (blocks_of j resp)))
              ∷ [])) in
          ((answered_text resp ≡ []) × (answered_calls resp ≡ []) × (sent ≡ []))
          ⊎ ((m : Value) × (sent ≡ m ∷ [])
              × IsSpoken (answered_text resp) (map printed_call (answered_calls resp)) m))
  message-blocks_of model resp =
      elim (spoken-IsSpoken model (answered_text resp) (map printed_call (answered_calls resp))) [
        | inl (t, calls, nothing) ↦
            inl (t, none_printed (answered_calls resp) calls, message-spoken model resp ∙ nothing)
        | inr (m, one, parts) ↦ inr (m, message-spoken model resp ∙ one, parts)
      ]
