-- ===== src/Policy/Request.antt =====
-- Where a request carries text, as a relation, and that a request is refused exactly for a text that
-- it carries.
use aipowergateway.Prelude.{
  ◌≡◌, refl, ◌↔◌, inl, inr, true, Option, none, some, [], ◌++◌, arith, is_some, IsMember,
  concat_map, IsMember-append, IsMember-filter_map, IsMember-concat_map, unwrap_or, Option-cases,
  ◌∙◌, sym,
}
use aipowergateway.Prelude.Text.{Text, text, text_eq, join}
use aipowergateway.Json.{
  Value, null, bool, unsigned, negative, float, str, arr, obj, Elems, elems, get, get_str,
  get_array, get_field, field, end,
}
use aipowergateway.Policy.{
  content_parts, option_list, tool_parts, request_parts, detect, extract_request_text,
}
use aipowergateway.Policy.Detect.{IsLinewise, flagged-join, any_iff}

-- The content is the text, or an array with a block whose `text` it is.
pub data Holds (content : Option Value) (t : Text) : Type 0 where
  whole : content ≡ some (str t) → Holds content t
  block :
      (bs : Elems) (b : Value)
      → content ≡ some (arr bs)
      → IsMember b (elems bs)
      → get_str (text "text") b ≡ some t
      → Holds content t

-- The text stands in the system prompt, in a message, or in the description of a tool or of its
-- function.
pub data Carries (body : Value) (t : Text) : Type 0 where
  system : Holds (get (text "system") body) t → Carries body t
  message :
      (m : Value)
      → IsMember m (unwrap_or (get_array (text "messages") body) [])
      → Holds (get (text "content") m) t
      → Carries body t
  tool :
      (v : Value)
      → IsMember v (unwrap_or (get_array (text "tools") body) [])
      → get_str (text "description") v ≡ some t
      → Carries body t
  function :
      (v f : Value)
      → IsMember v (unwrap_or (get_array (text "tools") body) [])
      → get (text "function") v ≡ some f
      → get_str (text "description") f ≡ some t
      → Carries body t

content_parts-Holds :
    (content : Option Value) (t : Text) → IsMember t (content_parts content) → Holds content t
unfolding content_parts
content_parts-Holds none t m = absurd m
content_parts-Holds (some (str s)) t (inl e) = Holds.whole (ground arith)
content_parts-Holds (some (str s)) t (inr m) = absurd m
content_parts-Holds (some (arr bs)) t m =
    let (b, inside, e) = (IsMember-filter_map (get_str (text "text")) t (elems bs)).0 m in
    Holds.block bs b refl inside e
content_parts-Holds (some null) t m = absurd m
content_parts-Holds (some (bool b)) t m = absurd m
content_parts-Holds (some (unsigned n)) t m = absurd m
content_parts-Holds (some (negative n)) t m = absurd m
content_parts-Holds (some (float n)) t m = absurd m
content_parts-Holds (some (obj fs)) t m = absurd m

Holds-content_parts :
    (content : Option Value) (t : Text) → Holds content t → IsMember t (content_parts content)
unfolding content_parts
Holds-content_parts content t (Holds.whole e) = rw (e, content_parts) (inl refl)
Holds-content_parts content t (Holds.block bs b e m h) =
    rw (e, content_parts) ((IsMember-filter_map (get_str (text "text")) t (elems bs)).1 (b, m, h))

option_list_iff : (o : Option Text) (t : Text) → IsMember t (option_list o) ↔ (o ≡ some t)
option_list_iff none t = (λ h. absurd h, λ e. cc)
option_list_iff (some s) t =
    (λ h. elim h [ inl e ↦ rw e | inr m ↦ absurd m ], λ e. inl (ground arith))

tool_parts-Carries :
    (body v : Value) (t : Text)
    → IsMember v (unwrap_or (get_array (text "tools") body) [])
    → IsMember t (tool_parts v)
    → Carries body t
unfolding tool_parts
tool_parts-Carries body v t inside m =
    elim ((IsMember-append t (option_list (get_str (text "description") v)) _).0 m) [
      | inl h ↦ Carries.tool v inside ((option_list_iff (get_str (text "description") v) t).0 h)
      | inr h ↦ elim (Option-cases (get (text "function") v)) [
        | inl missing ↦ absurd (rw missing at h)
        | inr (f, found) ↦
            Carries.function v f inside found
              ((option_list_iff (get_str (text "description") f) t).0 (rw found at h))
      ]
    ]

-- What is collected is what the request carries.
request_parts_iff : (body : Value) (t : Text) → IsMember t (request_parts body) ↔ Carries body t
unfolding request_parts tool_parts
request_parts_iff body t =
    let messages = unwrap_or (get_array (text "messages") body) [] in
    let tools = unwrap_or (get_array (text "tools") body) [] in
    let system_list = content_parts (get (text "system") body) in
    let of_message = λ (m : Value). content_parts (get (text "content") m) in
    let (split, join_all) =
      IsMember-append t system_list
        (concat_map of_message messages ++ concat_map tool_parts tools) in
    let (split_rest, join_rest) =
      IsMember-append t (concat_map of_message messages) (concat_map tool_parts tools) in
    (
      λ h. elim (split h) [
        | inl m ↦ Carries.system (content_parts-Holds _ t m)
        | inr rest ↦ elim (split_rest rest) [
          | inl m ↦
              let (v, inside, part) = (IsMember-concat_map of_message t messages).0 m in
              Carries.message v inside (content_parts-Holds _ t part)
          | inr m ↦
              let (v, inside, part) = (IsMember-concat_map tool_parts t tools).0 m in
              tool_parts-Carries body v t inside part
        ]
      ],
      λ h. elim h [
        | Carries.system c ↦ join_all (inl (Holds-content_parts _ t c))
        | Carries.message v inside c ↦ join_all (
            inr (
              join_rest (
                inl (
                  (IsMember-concat_map of_message t messages).1
                    (v, inside, Holds-content_parts _ t c)))))
        | Carries.tool v inside e ↦ join_all (
            inr (
              join_rest (
                inr (
                  (IsMember-concat_map tool_parts t tools).1 (
                    v,
                    inside,
                    (IsMember-append t (option_list (get_str (text "description") v)) _).1
                        (inl ((option_list_iff _ t).1 e)),
                  )))))
        | Carries.function v f inside found e ↦ join_all (
            inr (
              join_rest (
                inr (
                  (IsMember-concat_map tool_parts t tools).1 (
                    v,
                    inside,
                    (IsMember-append t (option_list (get_str (text "description") v)) _).1
                        (inr (rw found ((option_list_iff _ t).1 e))),
                  )))))
      ],
    )

-- A message with the result of a tool, as an Anthropic client sends it.
abbrev pub result_body : Value → Value
result_body content = obj (
    field (text "messages")
      (arr (
        Elems.cons
          (obj (
            field (text "role") (str (text "user")) (
              field (text "content")
                (arr (
                  Elems.cons
                    (obj (
                      field (text "type") (str (text "tool_result"))
                        (field (text "content") content end)))
                    Elems.nil))
                end)))
          Elems.nil))
      end)

unseen :
    (lower : Text → Text) (content : Value)
    → detect lower (extract_request_text (result_body content)) ≡ none
unfolding extract_request_text request_parts content_parts join detect get_field text_eq
unseen lower content = refl

-- A request is refused exactly when it has, under the keys of the system prompt, of the content of a
-- message (a text, or the `text` of a block) or of the description of a tool, a text that would be
-- refused alone: joining the texts by line breaks neither hides a term nor makes one, if lower case is
-- taken line by line. Nothing else is looked at: the `content` of a block that is the result of a tool
-- is not, so a request with any such result alone passes.
pub detect-extract_request_text :
    (lower : Text → Text) (body : Value)
    → IsLinewise lower
    → ((is_some (detect lower (extract_request_text body)) ≡ true)
        ↔ ((t : Text) × Carries body t × (is_some (detect lower t) ≡ true)))
      × ((content : Value) → detect lower (extract_request_text (result_body content)) ≡ none)
unfolding extract_request_text
detect-extract_request_text lower body linewise =
    let joined = flagged-join lower linewise (request_parts body) in
    let (to, from) = any_iff lower linewise (request_parts body) in
    (
      (
        λ h. let (t, m, e) = to (sym joined ∙ h) in (t, (request_parts_iff body t).0 m, e),
        λ (t, c, e). joined ∙ from (t, (request_parts_iff body t).1 c, e),
      ),
      λ content. unseen lower content,
    )
