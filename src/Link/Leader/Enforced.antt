-- ===== src/Link/Leader/Enforced.antt =====
-- What the layer lets through to the handlers, and what leaves it.
use aipowergateway.Prelude.{
  ◌≡◌, ◌≢◌, refl, ◌∙◌, ap, ◌⊎◌, inl, inr, true, false, Option, none, some, [], ◌∷◌, ◌++◌,
  Bool-cases, Option-cases, ok, err, Result-cases, is_nil, leb, length, arith,
}
use aipowergateway.Prelude.Text.{Text, text, text_eq, text_eq_iff, starts_with}
use aipowergateway.Link.Crypto.{Bytes, enforce, Primitives, derive_key, encrypt, decrypt}
use aipowergateway.Link.Crypto.Sealed.{decrypt-ok}
use aipowergateway.Link.Leader.{
  Headers, Body, whole, broken, Request, Response, wants_enc, is_exempt, bearer_token, open_request,
  seal_response, with_token, link_enc_middleware, upgrade_required, bad_request, enc_header,
  enc_version, get_header, remove_header, is_visible, to_bytes, body_limit, display,
}

wants_enc-true :
    (req : Request) → wants_enc req ≡ true → get_header enc_header req.headers ≡ some enc_version
unfolding is_visible
wants_enc-true req h = elim (Option-cases (get_header enc_header req.headers)) [
  | inl missing ↦ let clash = rw (missing, wants_enc) at h in cc
  | inr (v, there) ↦ elim (Bool-cases (is_visible v)) [
    | inr e ↦ let clash = rw (there, wants_enc, e) at h in cc
    | inl e ↦
        let same : text_eq v enc_version ≡ true = rw (there, wants_enc, e) at h in
        there ∙ ap some ((text_eq_iff v enc_version).0 same)
  ]
]

wants_enc-false :
    (req : Request) → wants_enc req ≡ false → get_header enc_header req.headers ≢ some enc_version
unfolding is_visible text_eq
wants_enc-false req h e = let clash = rw (e, wants_enc) at h in cc

get_header-remove_header : (k : Text) (hs : Headers) → get_header k (remove_header k hs) ≡ none
unfolding get_header remove_header
get_header-remove_header k [] = refl
get_header-remove_header k ((j, v) ∷ hs) = ground (arith, get_header-remove_header k hs)

to_bytes-whole : (b : Body) (bytes : Bytes) → to_bytes b ≡ some bytes → b ≡ whole bytes
unfolding to_bytes
to_bytes-whole broken bytes h = cc
to_bytes-whole (whole x) bytes h = elim (Bool-cases (leb (length x) body_limit)) [
  | inl e ↦ let same : Path (Option Bytes) (some x) (some bytes) = rw (e) at h in cc
  | inr e ↦ let clash : Path (Option Bytes) none (some bytes) = rw (e) at h in cc
]

module _ (c : Primitives) (key : Bytes) where
  -- What the handlers get of a request: a GET as it came; of any other, the plain text of a body that
  -- the key opens, without the header.
  pub data Opens (req inner : Request) : Type 0 where
    unread : req.is_get ≡ true → inner ≡ req → Opens req inner
    opened :
        (nonce sealed zipped plain : Bytes)
        → req.is_get ≡ false
        → req.body ≡ whole (nonce ++ sealed)
        → length nonce ≡ 12
        → c.unseal key nonce sealed ≡ some zipped
        → c.gunzip zipped ≡ ok plain
        → inner.body ≡ whole plain
        → inner.path ≡ req.path
        → get_header enc_header inner.headers ≡ none
        → Opens req inner

  -- What is sent for the response of the handlers: its status and its body, zipped and sealed by the
  -- key, with the header; or, if that body cannot be read, a refusal.
  pub data Seals (nonce : Bytes) (handled answer : Response) : Type 0 where
    sealed :
        (plain : Bytes)
        → handled.body ≡ whole plain
        → answer.status ≡ handled.status
        → answer.body ≡ whole (nonce ++ c.seal key nonce (c.gzip 6 plain))
        → get_header enc_header answer.headers ≡ some enc_version
        → Seals nonce handled answer
    unreadable : to_bytes handled.body ≡ none → answer.status ≡ 400 → Seals nonce handled answer

  seal_response-Seals :
      (nonce : Bytes) (handled : Response) → Seals nonce handled (seal_response c nonce key handled)
  unfolding seal_response encrypt get_header text_eq bad_request
  seal_response-Seals nonce handled = elim (Option-cases (to_bytes handled.body)) [
    | inl e ↦ Seals.unreadable e (rw (e, seal_response) refl)
    | inr (plain, e) ↦
        Seals.sealed plain (to_bytes-whole handled.body plain e) (rw (e, seal_response) refl)
          (rw (e, seal_response) refl) (rw (e, seal_response) refl)
  ]

  open_request-cases :
      (req : Request)
      → ((resp : Response) × (open_request c key req ≡ err resp) × (resp.status ≡ 400))
        ⊎ ((inner : Request) × (open_request c key req ≡ ok inner) × Opens req inner)
  unfolding open_request bad_request
  open_request-cases req = elim (Bool-cases req.is_get) [
    | inl e ↦ inr (req, rw (e, open_request) refl, Opens.unread e refl)
    | inr e ↦ elim (Option-cases (to_bytes req.body)) [
      | inl k ↦
          inl (bad_request (text "read encrypted body failed"), rw (e, open_request, k) refl, refl)
      | inr (raw, k) ↦ elim (Result-cases (decrypt c key raw)) [
        | inl (x, d) ↦ inl (
          bad_request (text "decrypt failed: " ++ (display x ++ text " (bad token or tampered)")),
          rw (e, open_request, k, d) refl,
          refl,
        )
        | inr (plain, d) ↦
            let (nonce, ct, z, same, front, _, unsealed, unzipped) = decrypt-ok c key raw plain d in
            inr (
              record req { headers = remove_header enc_header req.headers; body = whole plain },
              simp (open_request, e, k, d) refl,
              Opens.opened nonce ct z plain e (to_bytes-whole req.body raw k ∙ ap whole same) front
                  unsealed unzipped refl refl (get_header-remove_header enc_header req.headers),
            )
      ]
    ]
  ]

module _ {S : Type 0} (c : Primitives) (next : Request → S → Response × S) where
  -- The handlers run once, on what the key of the token opens, and their response is sealed by it.
  pub data Served (nonce : Bytes) (req : Request) (s : S) (answer : Response × S) : Type 0 where
    served :
        (t : Text) (inner : Request)
        → bearer_token req.headers ≡ some t
        → t ≢ []
        → Opens c (c.sha256 t) req inner
        → Seals c (c.sha256 t) nonce (next inner s).0 answer.0
        → answer.1 ≡ (next inner s).1
        → Served nonce req s answer

  with_token-cases :
      (nonce : Bytes) (t : Text) (req : Request) (s : S)
      → bearer_token req.headers ≡ some t
      → t ≢ []
      → (((with_token c next nonce t req s).0.status ≡ 400)
          × ((with_token c next nonce t req s).1 ≡ s))
        ⊎ Served nonce req s (with_token c next nonce t req s)
  unfolding with_token derive_key
  with_token-cases nonce t req s k n = elim (open_request-cases c (c.sha256 t) req) [
    | inl (resp, e, refused) ↦ inl (rw (e, with_token) refused, rw (e, with_token) refl)
    | inr (inner, e, opens) ↦ inr (
        rw (e, with_token)
          (Served.served t inner k n opens
            (seal_response-Seals c (c.sha256 t) nonce (next inner s).0) refl))
  ]

  -- Under `enforce`, a request to a path below /v1/ that is not exempt: without the header it is
  -- refused with 426; with it, it is refused with 400, or it has a token by whose key it is opened,
  -- unless it is a GET, and the status and the body of the response come from the handlers, the body
  -- sealed by the same key, or are a 400 if the body of the handlers cannot be read. A refused request
  -- does not reach the handlers.
  pub link_enc_middleware-IsSealed :
      (nonce : Bytes) (req : Request) (s : S)
      → starts_with req.path (text "/v1/") ≡ true
      → is_exempt req.path ≡ false
      → ((get_header enc_header req.headers ≢ some enc_version)
          × ((link_enc_middleware c next enforce nonce req s).0.status ≡ 426)
          × ((link_enc_middleware c next enforce nonce req s).1 ≡ s))
        ⊎ ((get_header enc_header req.headers ≡ some enc_version)
            × ((((link_enc_middleware c next enforce nonce req s).0.status ≡ 400)
                  × ((link_enc_middleware c next enforce nonce req s).1 ≡ s))
                ⊎ Served nonce req s (link_enc_middleware c next enforce nonce req s)))
  unfolding link_enc_middleware upgrade_required bad_request
  link_enc_middleware-IsSealed nonce req s model route = elim (Bool-cases (wants_enc req)) [
    | inr e ↦ inl (
      wants_enc-false req e,
      rw (e, link_enc_middleware, model, route) refl,
      rw (e, link_enc_middleware, model, route) refl,
    )
    | inl e ↦ inr (
      wants_enc-true req e,
      elim (Option-cases (bearer_token req.headers)) [
        | inl k ↦
            inl (
              rw (e, link_enc_middleware, route, k) refl,
              rw (e, link_enc_middleware, route, k) refl,
            )
        | inr (t, k) ↦ elim (Bool-cases (is_nil t)) [
          | inl n ↦ inl (
            rw (e, link_enc_middleware, route, k, n) refl,
            rw (e, link_enc_middleware, route, k, n) refl,
          )
          | inr n ↦
              rw (e, link_enc_middleware, route, k, n)
                (with_token-cases nonce t req s k (λ (z : t ≡ []). let clash = rw z at n in cc))
        ]
      ],
    )
  ]
