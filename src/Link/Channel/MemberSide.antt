-- ===== src/Link/Channel/MemberSide.antt =====
-- What the gateway of the member sends over an encrypted link, and how it reads the response.
use aipowergateway.Prelude.{
  ℕ, ◌≤◌, ◌≡◌, refl, ◌∙◌, ap, Bool, true, false, Option, none, some, [], ◌∷◌, ◌++◌, le→leb,
  if◌then◌else◌, length, is_nil, unwrap_or, Result, ok, err,
}
use aipowergateway.Prelude.Text.{Text, text, text_eq, trim}
use aipowergateway.Link.Crypto.Sealed.{decrypt-encrypt}
use aipowergateway.Link.Crypto.{
  Bytes, LinkCryptoError, Primitives, IsInverse, derive_key, encrypt, nonce_len, new_level,
}
use aipowergateway.Link.Leader.{
  Response, whole, enc_header, enc_version, content_type, body_limit, is_visible, strip_prefix,
  is_off, get_header, to_bytes, seal_response, refill, bad_request, display,
}
use aipowergateway.Link.Discovery.{LeaderInfo}
use aipowergateway.Link.Member
use aipowergateway.Link.Member.{
  MemberGateway, HttpRequest, HttpResponse, pick_leader, link_encrypts, token_of, is_encrypting,
  request_of, read_response, proxy, zero_key,
}
use aipowergateway.Link.Channel.{arrives, returns}

pub picks :
    (now : ℕ) (g : MemberGateway) (leader : LeaderInfo)
    → g.static_leader ≡ some leader
    → pick_leader now g ≡ some leader
unfolding pick_leader
picks now g leader h = rw (h) refl

pub encrypts_here :
    (g : MemberGateway) (leader : LeaderInfo) (path auth t : Text)
    → g.static_leader ≡ some leader
    → is_off g.encrypt_mode ≡ false
    → Member.is_exempt path ≡ false
    → strip_prefix (text "Bearer ") auth ≡ some t
    → is_nil (trim t) ≡ false
    → is_encrypting g path (some auth) ≡ true
unfolding is_encrypting link_encrypts
encrypts_here g leader path auth t static on route bearer filled =
    rw (static, on, route, bearer, filled) refl

-- What `proxy` computes over an encrypted link.
pub proxy_steps :
    {S : Type 0} (c : Primitives) (send : HttpRequest → S → Result HttpResponse Text × S) (now : ℕ)
    (g : MemberGateway) (leader : LeaderInfo) (nonce : Bytes) (path auth t : Text) (body : Bytes)
    (s : S) {r : HttpResponse} {s' : S} {x : Result (ℕ × Bytes) Text}
    → pick_leader now g ≡ some leader
    → is_encrypting g path (some auth) ≡ true
    → send (request_of c g leader nonce path (some auth) (some body)) s ≡ (ok r, s')
    → strip_prefix (text "Bearer ") auth ≡ some t
    → read_response c (derive_key c (trim t)) r ≡ x
    → proxy c send now g nonce path (some auth) (some body) s ≡ (x, s')
unfolding proxy
proxy_steps {S} c send now g leader nonce path auth t body s {r} {s'} p e sent bearer read =
    let run : Bool → Result HttpResponse Text × S → Result (ℕ × Bytes) Text × S = λ b z. elim z.0 [
      | err e ↦ (err (text "leader unreachable: " ++ e), z.1)
      | ok r ↦
          (read_response c (if b then derive_key c (token_of (some auth)) else zero_key) r, z.1)
    ] in
    ap
      (λ (o : Option LeaderInfo). elim o [
        | none ↦ (err (text "no leader available (LAN discovery empty + no deep-link target)"), s)
        | some l ↦
            run (is_encrypting g path (some auth))
              (send (request_of c g l nonce path (some auth) (some body)) s)
      ])
      p
    ∙ ap (λ b. run b (send (request_of c g leader nonce path (some auth) (some body)) s)) e
    ∙ ap (run true) sent
    ∙ ap (λ o. (read_response c (derive_key c (trim (unwrap_or o []))) r, s')) bearer
    ∙ ap (λ y. (y, s')) read

module _ (c : Primitives) where
  pub member_side :
      (g : MemberGateway) (leader : LeaderInfo) (nonce : Bytes) (path auth t : Text) (body : Bytes)
      → g.static_leader ≡ some leader
      → is_off g.encrypt_mode ≡ false
      → Member.is_exempt path ≡ false
      → strip_prefix (text "Bearer ") auth ≡ some t
      → is_nil (trim t) ≡ false
      → (arrives path (request_of c g leader nonce path (some auth) (some body)) ≡ record {
        path = path;
        is_get = false;
        headers =
            (text "authorization", auth)
            ∷ (content_type, text "application/json")
            ∷ (enc_header, enc_version)
            ∷ [];
        body = whole (encrypt c new_level nonce (derive_key c (trim t)) body);
      })
  unfolding request_of is_encrypting link_encrypts
  member_side g leader nonce path auth t body static on route bearer filled =
      rw (static, on, route, bearer, filled) refl

  abbrev sealed_response : Bytes → Bytes → Response → Bytes → Response
  sealed_response nonce key resp blob = record {
    status = resp.status;
    headers =
        (enc_header, enc_version)
        ∷ (content_type, text "application/json")
        ∷ refill [] resp.headers;
    body = whole (encrypt c new_level nonce key blob);
  }

  seals :
      (nonce key blob : Bytes) (resp : Response)
      → resp.body ≡ whole blob
      → length blob ≤ body_limit
      → seal_response c nonce key resp ≡ sealed_response nonce key resp blob
  unfolding seal_response to_bytes
  seals nonce key blob resp answered fits =
      ap
        (λ (o : Option Bytes). elim o [
          | none ↦ bad_request (text "read response body failed")
          | some b ↦ sealed_response nonce key resp b
        ])
        (ap to_bytes answered
          ∙ (let kept : to_bytes (whole blob) ≡ some blob =
                rw (le→leb (length blob) body_limit fits) refl in
              kept))

  opens :
      (nonce key blob : Bytes) (resp : Response)
      → IsInverse c
      → length nonce ≡ nonce_len
      → read_response c key (returns (sealed_response nonce key resp blob)) ≡ ok (resp.status, blob)
  unfolding read_response get_header is_visible text_eq
  opens nonce key blob resp inverse h =
      ap
        (λ (r : Result Bytes LinkCryptoError). elim r [
          | ok plain ↦ ok (resp.status, plain)
          | err e ↦ err (text "leader response decrypt failed: " ++ display e)
        ])
        (decrypt-encrypt c new_level nonce key blob inverse h)

  pub read_side :
      (nonce key blob : Bytes) (resp : Response)
      → IsInverse c
      → length nonce ≡ nonce_len
      → resp.body ≡ whole blob
      → length blob ≤ body_limit
      → read_response c key (returns (seal_response c nonce key resp)) ≡ ok (resp.status, blob)
  read_side nonce key blob resp inverse h answered fits =
      ap (λ r. read_response c key (returns r)) (seals nonce key blob resp answered fits)
      ∙ opens nonce key blob resp inverse h
