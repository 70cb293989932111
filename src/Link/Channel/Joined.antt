-- ===== src/Link/Channel/Joined.antt =====
-- What is sealed on one side of the link is opened on the other.
use aipowergateway.Prelude.{ℕ, ◌≤◌, ◌≡◌, ◌∙◌, ap, true, false, some, length, is_nil, ok}
use aipowergateway.Prelude.Text.{Text, text, trim}
use aipowergateway.Link.Crypto.Sealed.{decrypt-encrypt}
use aipowergateway.Link.Crypto.{
  Bytes, LinkEncryptMode, Primitives, IsInverse, derive_key, encrypt, nonce_len, new_level,
}
use aipowergateway.Link.Leader.{
  Request, Response, whole, body_limit, is_visible, strip_prefix, is_off, link_enc_middleware,
}
use aipowergateway.Link.Discovery.{LeaderInfo}
use aipowergateway.Link.Member
use aipowergateway.Link.Member.{
  MemberGateway, HttpRequest, HttpResponse, pick_leader, link_encrypts, token_of, is_encrypting,
  request_of, read_response, proxy, zero_key,
}
use aipowergateway.Link.Channel.{returns, channel, plain_request}
use aipowergateway.Link.Channel.MemberSide.{
  picks, encrypts_here, proxy_steps, member_side, read_side,
}
use aipowergateway.Link.Channel.LeaderSide.{exempt_same, leader_side}

module _ {S : Type 0} (c : Primitives) (next : Request → S → Response × S) where
  -- A POST that a member sends over an encrypted link, with the path not exempt, a token, both
  -- nonces of twelve bytes, and bodies within the limit: the handlers of the leader see the plain
  -- request, and the member gets the status and the plain body of their response. Neither side
  -- can tell that the link was encrypted.
  pub proxy-link_enc_middleware :
      (g : MemberGateway) (leader : LeaderInfo) (policy : LinkEncryptMode) (now : ℕ)
      (nonce nonce' : Bytes) (path auth t : Text) (body blob : Bytes) (s : S)
      → IsInverse c
      → length nonce ≡ nonce_len
      → length nonce' ≡ nonce_len
      → g.static_leader ≡ some leader
      → is_off g.encrypt_mode ≡ false
      → is_off policy ≡ false
      → Member.is_exempt path ≡ false
      → is_visible auth ≡ true
      → strip_prefix (text "Bearer ") auth ≡ some t
      → is_nil (trim t) ≡ false
      → length (encrypt c new_level nonce (derive_key c (trim t)) body) ≤ body_limit
      → (next (plain_request path auth body) s).0.body ≡ whole blob
      → length blob ≤ body_limit
      → proxy c (channel c next policy nonce' path) now g nonce path (some auth) (some body) s ≡ (
        ok ((next (plain_request path auth body) s).0.status, blob),
        (next (plain_request path auth body) s).1,
      )
  unfolding proxy
  proxy-link_enc_middleware g leader policy now nonce nonce' path auth t body blob s inverse h h'
        static on on' route visible bearer filled size answered fits =
      let key = derive_key c (trim t) in
      let resp = (next (plain_request path auth body) s).0 in
      let opened = decrypt-encrypt c new_level nonce key body inverse h in
      proxy_steps c (channel c next policy nonce' path) now g leader nonce path auth t body s
        (picks now g leader static)
        (encrypts_here g leader path auth t static on route bearer filled)
        (ap
            (λ (r : Request).
              let (resp, s') = link_enc_middleware c next policy nonce' r s in
              (ok (returns resp), s'))
            (member_side c g leader nonce path auth t body static on route bearer filled)
          ∙ ap (λ (z : Response × S). (ok (returns z.0), z.1))
              (leader_side c next policy nonce' path auth t _ body s on' (exempt_same path route)
                visible bearer filled size opened))
        bearer (read_side c nonce' key blob resp inverse h' answered fits)
