-- ===== src/Protocol/Replayed.antt =====
-- A response that is replayed as a stream and put back together from it.
use aipowergateway.Prelude.{
  ℕ, subst, Option-cases, ◌≡◌, refl, ◌∙◌, ap, inl, inr, Bool, false, Option, none, some, List, [],
  ◌∷◌, ◌++◌, if◌then◌else◌, All, Bool-cases, is_nil, map, unwrap_or, ◌>>=◌, add_u64, Result, ok,
  err,
}
use mathlib.Core.List.{append-nil}
use aipowergateway.Prelude.Text.{Text, text, text_eq, text_eq_iff}
use aipowergateway.Json.{Value, obj, end, null, unsigned, str, get_field, get, get_str, get_u64}
use aipowergateway.Api.{extract_openai_usage}
use aipowergateway.Protocol.{Json, object}
use aipowergateway.Protocol.Choice.{OpenAiChoice, first_choice}
use aipowergateway.Protocol.Stream.{
  chunk, call_chunk, finish_reason, last_chunk, chunks, openai_sse_stream,
}
use aipowergateway.Protocol.Kept.{choice_of, message_of, reason_of, tokens, Ends, IsReplay}
use aipowergateway.Protocol.Assemble.{Assembly, start, absorb, assembled, assemble_sse_response}
use aipowergateway.Protocol.Lines.{IsRead, absorb_all, absorb_lines-data_lines}

module _ (resp : Value) where
  -- What the client is told: the text of the first choice, and the tokens.
  abbrev pub content_of : Text
  content_of = elim (first_choice resp) [ none ↦ [] | some c ↦ c.content ]

  abbrev pub usage_of : Value
  usage_of =
      let (pt, ct) = extract_openai_usage resp in
      object (
        (text "prompt_tokens", unsigned pt)
        ∷ (text "completion_tokens", unsigned ct)
        ∷ (text "total_tokens", unsigned (add_u64 pt ct))
        ∷ [])

  abbrev said : Text → Assembly
  said content = record {
    id = some (unwrap_or (get_str (text "id") resp) (text "chatcmpl-mock"));
    model = some (unwrap_or (get_str (text "model") resp) (text "default"));
    created = some (unwrap_or (get_u64 (text "created") resp) 0);
    content = content;
    reasoning = [];
    finish_reason = text "stop";
    usage = none;
  }

  abbrev pub replayed : Assembly
  replayed = record (said content_of) { finish_reason = finish_reason resp; usage = some usage_of }

  calls_add_nothing :
      (tcs : List Value) (rest : List Value) (c : Text)
      → absorb_all (map (call_chunk resp) tcs ++ rest) (said c) ≡ absorb_all rest (said c)
  unfolding absorb_all absorb get_field text_eq
  calls_add_nothing [] rest c = refl
  calls_add_nothing (tc ∷ tcs) rest c =
      ap (λ d. absorb_all (map (call_chunk resp) tcs ++ rest) (said d)) (append-nil c)
      ∙ calls_add_nothing tcs rest c

  last_adds :
      (c : Text)
      → absorb_all (last_chunk resp ∷ []) (said c)
        ≡ record (said c) { finish_reason = finish_reason resp; usage = some usage_of }
  unfolding absorb_all absorb get_field text_eq
  last_adds c =
      ap
        (λ (b : Bool). record (said (c ++ [])) {
          finish_reason = if b then text "stop" else finish_reason resp;
          usage = some usage_of;
        })
        (finish_some (first_choice resp >>= λ o. o.finish_reason))
      ∙ ap (λ d. record (said d) { finish_reason = finish_reason resp; usage = some usage_of })
          (append-nil c)
    where
      finish_some :
          (o : Option Text)
          → is_nil (elim o [
            | none ↦ text "stop"
            | some r ↦
                if text_eq r (text "tool_calls")
                then text "tool_calls"
                else if text_eq r (text "length")
                then text "length"
                else text "stop"
          ])
            ≡ false
      finish_some none = refl
      finish_some (some r) = elim (Bool-cases (text_eq r (text "tool_calls"))) [
        | inl e ↦ rw (e) refl
        | inr e ↦ elim (Bool-cases (text_eq r (text "length"))) [
          | inl k ↦ rw (e, k) refl
          | inr k ↦ rw (e, k) refl
        ]
      ]

  text_adds :
      (t : Text) (tcs : List Value)
      → absorb_all
          (((if is_nil t then [] else chunk resp ((text "content", str t) ∷ []) null [] ∷ [])
              ++ map (call_chunk resp) tcs)
            ++ last_chunk resp ∷ [])
          (said [])
        ≡ absorb_all (last_chunk resp ∷ []) (said t)
  unfolding absorb_all absorb get_field text_eq
  text_adds [] tcs = calls_add_nothing tcs (last_chunk resp ∷ []) []
  text_adds (c ∷ t) tcs = calls_add_nothing tcs (last_chunk resp ∷ []) (c ∷ t)

  choice_adds :
      (o : Option OpenAiChoice)
      → absorb_all
          (elim o [
            | none ↦ []
            | some c ↦
                (if is_nil c.content
                  then []
                  else chunk resp ((text "content", str c.content) ∷ []) null [] ∷ [])
                ++ map (call_chunk resp) c.tool_calls
          ]
            ++ last_chunk resp ∷ [])
          (said [])
        ≡ absorb_all (last_chunk resp ∷ []) (said (elim o [ none ↦ [] | some c ↦ c.content ]))
  choice_adds none = refl
  choice_adds (some c) = text_adds c.content c.tool_calls

  absorb_all-chunks : absorb_all (chunks resp) start ≡ replayed
  unfolding chunks absorb_all absorb get_field text_eq
  absorb_all-chunks = choice_adds (first_choice resp) ∙ last_adds content_of

content_lem :
    (resp : Value) → content_of resp ≡ unwrap_or (message_of resp >>= get_str (text "content")) []
unfolding first_choice
content_lem resp = elim (Option-cases (choice_of resp)) [
  | inl e ↦ rw (content_of, first_choice, e) refl
  | inr (c, e) ↦ elim (Option-cases (get (text "message") c)) [
    | inl k ↦ rw (content_of, first_choice, e, k) refl
    | inr (m, k) ↦ rw (content_of, first_choice, e, k) refl
  ]
]

reason_lem : (resp : Value) → (first_choice resp >>= λ c. c.finish_reason) ≡ reason_of resp
unfolding first_choice
reason_lem resp = elim (Option-cases (choice_of resp)) [
  | inl e ↦ rw (e) refl
  | inr (c, e) ↦ elim (Option-cases (get (text "message") c)) [
    | inl k ↦ rw (e, k) refl
    | inr (m, k) ↦ rw (e, k) refl
  ]
]

tokens_lem :
    (name : Text) (u : Option Value)
    → unwrap_or (get_u64 name (unwrap_or u (obj end))) 0 ≡ unwrap_or (u >>= get_u64 name) 0
unfolding get_field
tokens_lem name none = refl
tokens_lem name (some v) = refl

ended :
    (o : Option Text)
    → Ends o (elim o [
      | none ↦ text "stop"
      | some r ↦
          if text_eq r (text "tool_calls")
          then text "tool_calls"
          else if text_eq r (text "length")
          then text "length"
          else text "stop"
    ])
ended none = Ends.stop (λ e. cc) (λ e. cc)
ended (some r) = elim (Bool-cases (text_eq r (text "tool_calls"))) [
  | inl e ↦ rw (e, (text_eq_iff r (text "tool_calls")).0 e) Ends.calls
  | inr e ↦ elim (Bool-cases (text_eq r (text "length"))) [
    | inl k ↦ rw (e, k, (text_eq_iff r (text "length")).0 k) Ends.length
    | inr k ↦ rw (e, k) (Ends.stop (other e) (other k))
  ]
]
  where
    other : {t : Text} → text_eq r t ≡ false → Path (Option Text) (some r) (some t) → ⊥
    other {t} e p =
        let same : r ≡ t = ap (λ (o : Option Text). unwrap_or o []) p in
        let yes = (text_eq_iff r t).1 same in cc

Ends-finish_reason : (resp : Value) → Ends (reason_of resp) (finish_reason resp)
Ends-finish_reason resp =
    subst (λ (o : Option Text). Ends o (finish_reason resp)) (reason_lem resp)
      (ended (first_choice resp >>= λ c. c.finish_reason))

assembled-IsReplay : (resp : Value) → IsReplay resp (assembled (replayed resp))
unfolding assembled get_field text_eq first_choice extract_openai_usage
assembled-IsReplay resp = record {
  id = refl;
  model = refl;
  created = refl;
  role = refl;
  content = ap some (content_lem resp);
  ending = (finish_reason resp, refl, Ends-finish_reason resp);
  prompt = ap some (tokens_lem (text "prompt_tokens") (get (text "usage") resp));
  completion = ap some (tokens_lem (text "completion_tokens") (get (text "usage") resp));
  total = ap some (
      ap
        (λ (n : ℕ). add_u64 n (
          unwrap_or
            (get_u64 (text "completion_tokens") (unwrap_or (get (text "usage") resp) (obj end))) 0))
        (tokens_lem (text "prompt_tokens") (get (text "usage") resp))
      ∙ ap (λ (n : ℕ). add_u64 (tokens (text "prompt_tokens") resp) n)
          (tokens_lem (text "completion_tokens") (get (text "usage") resp)));
}

-- A response whose chunks are printed as objects on one line each and read back: the stream that
-- the gateway makes of it is put together again to a response with its id, its model, its time,
-- the text of its first choice, the reason of its end (one other than the calls of tools and the
-- length is `stop`), and its tokens.
pub assemble_sse_response-openai_sse_stream :
    (j : Json) (resp : Value)
    → All (IsRead j) (chunks resp)
    → (v : Value) × (assemble_sse_response j (openai_sse_stream j resp) ≡ ok v) × IsReplay resp v
unfolding assemble_sse_response openai_sse_stream
assemble_sse_response-openai_sse_stream j resp h = (
  assembled (replayed resp),
  ap (λ (r : Result Assembly Text). elim r [ err e ↦ err e | ok a ↦ ok (assembled a) ])
      (absorb_lines-data_lines j (chunks resp) start h ∙ ap ok (absorb_all-chunks resp)),
  assembled-IsReplay resp,
)
