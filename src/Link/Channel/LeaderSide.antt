-- ===== src/Link/Channel/LeaderSide.antt =====
-- What the layer of the leader makes of a sealed request.
use aipowergateway.Prelude.{
  ◌≤◌, ◌≡◌, refl, ap, true, false, Option, none, some, [], ◌∷◌, le→leb, arith, length, is_nil,
  Result, ok, err, ◌>>=◌,
}
use mathlib.Core.Option
use aipowergateway.Prelude.Text.{Text, text, text_eq, text_eq_iff, trim}
use aipowergateway.Link.Crypto.{Bytes, LinkEncryptMode, Primitives, derive_key, decrypt}
use aipowergateway.Link.Leader.{
  Headers, header_str, Request, Response, whole, enc_header, enc_version, content_type, body_limit,
  is_visible, strip_prefix, is_off, get_header, remove_header, to_bytes, bearer_token, is_exempt,
  open_request, seal_response, with_token, link_enc_middleware,
}
use aipowergateway.Link.Member
use aipowergateway.Link.Member.{
  MemberGateway, HttpRequest, HttpResponse, pick_leader, link_encrypts, token_of, is_encrypting,
  request_of, read_response, proxy, zero_key,
}
use aipowergateway.Link.Channel.{plain_request}

pub exempt_same : (path : Text) → Member.is_exempt path ≡ false → is_exempt path ≡ false
unfolding Member.is_exempt is_exempt
exempt_same path h = ground (
  arith,
  text_eq_iff path (text "/auth/token"),
  text_eq_iff (text "/auth/token") path,
  text_eq_iff path (text "/auth/rename"),
  text_eq_iff (text "/auth/rename") path,
)

module _ {S : Type 0} (c : Primitives) (next : Request → S → Response × S) where
  abbrev sealed_headers : Text → Headers
  sealed_headers auth =
      (text "authorization", auth)
      ∷ (content_type, text "application/json")
      ∷ (enc_header, enc_version)
      ∷ []

  header_token :
      (auth t : Text)
      → is_visible auth ≡ true
      → strip_prefix (text "Bearer ") auth ≡ some t
      → (header_str (text "authorization") (sealed_headers auth) >>= strip_prefix (text "Bearer "))
        ≡ some t
  unfolding get_header text_eq
  header_token auth t visible bearer = rw (visible) bearer

  leader_token :
      (auth t : Text)
      → is_visible auth ≡ true
      → strip_prefix (text "Bearer ") auth ≡ some t
      → bearer_token (sealed_headers auth) ≡ some (trim t)
  unfolding bearer_token
  leader_token auth t visible bearer =
      ap
        (λ (o : Option Text). elim o [
          | some t ↦ some (trim t)
          | none ↦ Option.map trim (header_str (text "x-api-key") (sealed_headers auth))
        ])
        (header_token auth t visible bearer)

  leader_opens :
      (path auth : Text) (key sealed body : Bytes)
      → length sealed ≤ body_limit
      → decrypt c key sealed ≡ ok body
      → open_request c key (record {
        path = path;
        is_get = false;
        headers = sealed_headers auth;
        body = whole sealed;
      })
        ≡ ok (plain_request path auth body)
  unfolding open_request to_bytes remove_header text_eq
  leader_opens path auth key sealed body size opened =
      let fits = le→leb (length sealed) body_limit size in rw (fits, opened) refl

  token_side :
      (nonce : Bytes) (path auth token : Text) (sealed body : Bytes) (s : S)
      → length sealed ≤ body_limit
      → decrypt c (derive_key c token) sealed ≡ ok body
      → with_token c next nonce token
          (record {
            path = path;
            is_get = false;
            headers = sealed_headers auth;
            body = whole sealed;
          })
          s
        ≡ (
          seal_response c nonce (derive_key c token) (next (plain_request path auth body) s).0,
          (next (plain_request path auth body) s).1,
        )
  unfolding with_token
  token_side nonce path auth token sealed body s size opened =
      ap
        (λ (r : Result Request Response). elim r [
          | err resp ↦ (resp, s)
          | ok inner ↦
              (seal_response c nonce (derive_key c token) (next inner s).0, (next inner s).1)
        ])
        (leader_opens path auth (derive_key c token) sealed body size opened)

  pub leader_side :
      (policy : LinkEncryptMode) (nonce : Bytes) (path auth t : Text) (sealed body : Bytes) (s : S)
      → is_off policy ≡ false
      → is_exempt path ≡ false
      → is_visible auth ≡ true
      → strip_prefix (text "Bearer ") auth ≡ some t
      → is_nil (trim t) ≡ false
      → length sealed ≤ body_limit
      → decrypt c (derive_key c (trim t)) sealed ≡ ok body
      → link_enc_middleware c next policy nonce
          (record {
            path = path;
            is_get = false;
            headers = sealed_headers auth;
            body = whole sealed;
          })
          s
        ≡ (
          seal_response c nonce (derive_key c (trim t)) (next (plain_request path auth body) s).0,
          (next (plain_request path auth body) s).1,
        )
  unfolding link_enc_middleware get_header text_eq is_visible
  leader_side policy nonce path auth t sealed body s on route visible bearer filled size opened =
      rw (route, on, leader_token auth t visible bearer, filled)
        (token_side nonce path auth (trim t) sealed body s size opened)
