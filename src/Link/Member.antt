-- ===== src/Link/Member.antt =====
-- crates/lan-client/src/gateway.rs: the gateway on the machine of a member. The HTTP client is a
-- parameter.
pub mod Pick
use aipowergateway.Prelude.{
  ℕ, ◌+◌, Bool, true, false, not, Option, none, some, List, [], ◌∷◌, ◌++◌, ◌==◌, ◌&&◌, ◌||◌, leb,
  if◌then◌else◌, is_nil, is_some, unwrap_or, head, retain, find, length, Result, ok, err, ◌>>=◌,
}
use mathlib.Core.Option
use aipowergateway.Prelude.Text.{Text, text, text_eq, trim, trim_end_matches, decimal}
use aipowergateway.Prelude.Sort.{sort_by}
use aipowergateway.Link.Crypto.{
  Bytes, LinkEncryptMode, off, aes_gcm, enforce, tls, Primitives, derive_key, encrypt, decrypt,
  new_level,
}
use aipowergateway.Link.Leader.{
  Headers, header_str, get_header, is_visible, strip_prefix, enc_header, enc_version, content_type,
  is_off, display,
}
use aipowergateway.Link.Discovery.{DiscoveryClient, LeaderInfo, leaders, link_base, positive}

pub record MemberGateway : Type 0 where
  pub discovery : DiscoveryClient
  pub static_leader : Option LeaderInfo
  pub encrypt_mode : LinkEncryptMode

unfoldable pub with_encrypt : DiscoveryClient → LinkEncryptMode → MemberGateway
with_encrypt d mode = record { discovery = d; static_leader = none; encrypt_mode = mode }

unfoldable pub set_static_leader : LeaderInfo → MemberGateway → MemberGateway
set_static_leader l g = record g { static_leader = some l }

unfoldable pub leader_count : ℕ → MemberGateway → ℕ
unfolding leaders
leader_count now g =
    if is_some g.static_leader then 1 else length (retain (λ l. l.online) (leaders now g.discovery))

abbrev place : LeaderInfo → Text
place l =
    l.name
    ++ (text "@"
        ++ (l.address ++ (text ":" ++ decimal (unwrap_or (positive l.share_port) l.api_port))))

unfoldable pub leader_summary : ℕ → MemberGateway → Text
unfolding leaders decimal
leader_summary now g = elim g.static_leader [
  | some l ↦ text "[deep-link] " ++ place l
  | none ↦
      let list = leaders now g.discovery in
      elim (find (λ (l : LeaderInfo). l.online) list) [
        | some l ↦ place l
        | none ↦ if is_nil list then text "none" else text "offline"
      ]
]

unfoldable pub pick_leader : ℕ → MemberGateway → Option LeaderInfo
unfolding leaders sort_by
pick_leader now g = elim g.static_leader [
  | some l ↦ some l
  | none ↦ head (
      sort_by (λ a b. leb b.last_seen a.last_seen)
        (retain (λ l. l.online) (leaders now g.discovery)))
]

unfoldable pub is_exempt : Text → Bool
unfolding text_eq
is_exempt path = text_eq path (text "/auth/token") || text_eq path (text "/auth/rename")

unfoldable pub link_encrypts : MemberGateway → Bool
link_encrypts g = not (is_off g.encrypt_mode) && is_some g.static_leader

-- What is sent: POST with a body, GET without one.
pub record HttpRequest : Type 0 where
  pub url : Text
  pub headers : Headers
  pub body : Option Bytes

-- The status, the headers, and the body or the error of reading it.
pub record HttpResponse : Type 0 where
  pub status : ℕ
  pub headers : Headers
  pub body : Result Bytes Text

-- The token of an `Authorization` value, empty without one.
abbrev pub token_of : Option Text → Text
token_of auth = trim (unwrap_or (auth >>= strip_prefix (text "Bearer ")) [])

abbrev pub is_encrypted : HttpResponse → Bool
is_encrypted r = elim (header_str enc_header r.headers) [
  | none ↦ false
  | some v ↦ text_eq v enc_version
]

abbrev pub zero_key : Bytes
zero_key =
    0 ∷ 0 ∷ 0 ∷ 0 ∷ 0 ∷ 0 ∷ 0 ∷ 0 ∷ 0 ∷ 0 ∷ 0 ∷ 0 ∷ 0 ∷ 0 ∷ 0 ∷ 0 ∷ 0 ∷ 0 ∷ 0 ∷ 0 ∷ 0 ∷ 0 ∷ 0 ∷ 0
    ∷ 0 ∷ 0 ∷ 0 ∷ 0 ∷ 0 ∷ 0 ∷ 0 ∷ 0 ∷ []

unfoldable pub is_encrypting : MemberGateway → Text → Option Text → Bool
unfolding link_encrypts is_exempt strip_prefix trim
is_encrypting g path auth = link_encrypts g && not (is_exempt path) && not (is_nil (token_of auth))

module _ (c : Primitives) where
  unfoldable pub request_of :
      MemberGateway → LeaderInfo → Bytes → Text → Option Text → Option Bytes → HttpRequest
  unfolding link_base trim_end_matches is_encrypting derive_key encrypt
  request_of g leader nonce path auth body =
      let plain_headers =
        elim auth [ none ↦ [] | some a ↦ (text "authorization", a) ∷ [] ]
        ++ (content_type, text "application/json") ∷ [] in
      let url = trim_end_matches b'/' (link_base leader) ++ path in
      if is_encrypting g path auth
      then record {
        url = url;
        headers = plain_headers ++ (enc_header, enc_version) ∷ [];
        body = Option.map (encrypt c new_level nonce (derive_key c (token_of auth))) body;
      }
      else record { url = url; headers = plain_headers; body = body }

  -- An encrypted response to a request in the clear is opened with the key of zeros.
  unfoldable pub read_response : Bytes → HttpResponse → Result (ℕ × Bytes) Text
  unfolding get_header is_visible text_eq decrypt display
  read_response key r = elim r.body [
    | err e ↦ err (text "read response: " ++ e)
    | ok bytes ↦
        if is_encrypted r
        then elim (decrypt c key bytes) [
          | ok plain ↦ ok (r.status, plain)
          | err e ↦ err (text "leader response decrypt failed: " ++ display e)
        ]
        else ok (r.status, bytes)
  ]

module _ {S : Type 0} (c : Primitives) (send : HttpRequest → S → Result HttpResponse Text × S) where
  unfoldable pub proxy :
      ℕ
      → MemberGateway
      → Bytes
      → Text
      → Option Text
      → Option Bytes
      → S
      → Result (ℕ × Bytes) Text × S
  unfolding pick_leader is_encrypting request_of derive_key read_response
  proxy now g nonce path auth body s = elim (pick_leader now g) [
    | none ↦ (err (text "no leader available (LAN discovery empty + no deep-link target)"), s)
    | some leader ↦
        let key = if is_encrypting g path auth then derive_key c (token_of auth) else zero_key in
        let (answer, s') = send (request_of c g leader nonce path auth body) s in
        elim answer [
          | err e ↦ (err (text "leader unreachable: " ++ e), s')
          | ok r ↦ (read_response c key r, s')
        ]
  ]
