-- ===== src/Link/Leader.antt =====
-- crates/lan-share/src/link.rs: the layer in front of the leader's handlers.
pub mod Enforced
use aipowergateway.Prelude.{
  ℕ, ◌+◌, ◌*◌, Bool, true, false, not, Option, none, some, List, [], ◌∷◌, ◌++◌, ◌==◌, ◌&&◌, ◌||◌,
  leb, if◌then◌else◌, length, is_nil, is_some, Result, ok, err, any, ◌>>=◌,
}
use mathlib.Core.Option
use aipowergateway.Prelude.Text.{Text, text, text_eq, trim, starts_with, decimal}
use aipowergateway.Link.Crypto.{
  Bytes, LinkEncryptMode, off, aes_gcm, enforce, tls, LinkCryptoError, too_short, decompress,
  decrypt_failed, Primitives, derive_key, encrypt, decrypt, new_level,
}

-- Headers in the order of the map's iterator, with names in lower case; a name may come twice.
abbrev pub Headers : Type 0
Headers = List (Text × Text)

unfoldable pub get_header : Text → Headers → Option Text
unfolding text_eq
get_header k [] = none
get_header k ((j, v) ∷ hs) = if text_eq j k then some v else get_header k hs

unfoldable pub remove_header : Text → Headers → Headers
unfolding text_eq
remove_header k [] = []
remove_header k ((j, v) ∷ hs) =
    if text_eq j k then remove_header k hs else (j, v) ∷ remove_header k hs

-- `v.to_str().ok()`: the visible ASCII characters and the tab.
unfoldable pub is_visible : Text → Bool
is_visible [] = true
is_visible (c ∷ s) = ((leb 32 c && leb c 126) || (c == 9)) && is_visible s

abbrev pub header_str : Text → Headers → Option Text
header_str k hs = get_header k hs >>= λ v. if is_visible v then some v else none

-- A body that is read whole, or whose stream breaks.
pub data Body : Type 0 where
  whole : Bytes → Body
  broken : Body

pub record Request : Type 0 where
  pub path : Text
  pub is_get : Bool
  pub headers : Headers
  pub body : Body

pub record Response : Type 0 where
  pub status : ℕ
  pub headers : Headers
  pub body : Body

abbrev pub enc_header : Text
enc_header = text "x-aipg-enc"

abbrev pub enc_version : Text
enc_version = text "v1"

abbrev pub content_type : Text
content_type = text "content-type"

abbrev pub body_limit : ℕ
body_limit = 64 * 1024 * 1024

abbrev pub exempt_paths : List Text
exempt_paths = text "/auth/token" ∷ text "/auth/rename" ∷ []

unfoldable pub is_exempt : Text → Bool
unfolding text_eq
is_exempt path = any (λ p. text_eq p path) exempt_paths

-- `to_bytes(body, BODY_LIMIT)`
unfoldable pub to_bytes : Body → Option Bytes
to_bytes (whole b) = if leb (length b) body_limit then some b else none
to_bytes broken = none

-- `s.strip_prefix(p)`
unfoldable pub strip_prefix : Text → Text → Option Text
strip_prefix [] s = some s
strip_prefix (d ∷ p) [] = none
strip_prefix (d ∷ p) (c ∷ s) = if c == d then strip_prefix p s else none

unfoldable pub bearer_token : Headers → Option Text
unfolding get_header is_visible strip_prefix trim
bearer_token headers =
    elim (header_str (text "authorization") headers >>= strip_prefix (text "Bearer ")) [
      | some t ↦ some (trim t)
      | none ↦ Option.map trim (header_str (text "x-api-key") headers)
    ]

-- `{"error":{"message":"…"}}`
abbrev error_body : Text → Text
error_body message = text "{\"error\":{\"message\":\"" ++ (message ++ text "\"}}")

unfoldable pub upgrade_required : Response
upgrade_required = record {
  status = 426;
  headers = (text "upgrade", enc_header) ∷ (content_type, text "application/json") ∷ [];
  body = whole (error_body (text "link encryption is enforced: send request with x-aipg-enc: v1"));
}

unfoldable pub bad_request : Text → Response
bad_request message = record {
  status = 400;
  headers = (content_type, text "application/json") ∷ [];
  body = whole (error_body message);
}

-- `Display`
unfoldable pub display : LinkCryptoError → Text
unfolding decimal
display (too_short n) =
    text "payload too short (" ++ (decimal n ++ text " bytes < nonce+tag minimum)")
display (decompress e) = text "gzip decompress failed: " ++ e
display decrypt_failed = text "AES-GCM decrypt failed (bad token / tampered payload)"

-- The headers that are put back: the first value of each name, but for the length.
unfoldable pub refill : Headers → Headers → Headers
unfolding get_header text_eq
refill seen [] = []
refill seen ((k, v) ∷ hs) =
    let rest = refill ((k, v) ∷ seen) hs in
    if is_some (get_header k seen) || text_eq k (text "content-length") then rest else (k, v) ∷ rest

abbrev pub wants_enc : Request → Bool
wants_enc req = elim (header_str enc_header req.headers) [
  | none ↦ false
  | some v ↦ text_eq v enc_version
]

abbrev pub is_off : LinkEncryptMode → Bool
is_off off = true
is_off mode = false

abbrev pub is_enforce : LinkEncryptMode → Bool
is_enforce enforce = true
is_enforce mode = false

module _ (c : Primitives) where
  -- The response of the handlers, sealed.
  unfoldable pub seal_response : Bytes → Bytes → Response → Response
  unfolding to_bytes encrypt refill bad_request
  seal_response nonce key resp = elim (to_bytes resp.body) [
    | none ↦ bad_request (text "read response body failed")
    | some blob ↦ record {
      status = resp.status;
      headers =
          (enc_header, enc_version)
          ∷ (content_type, text "application/json")
          ∷ refill [] resp.headers;
      body = whole (encrypt c new_level nonce key blob);
    }
  ]

  -- The request that the handlers see, or the refusal.
  unfoldable pub open_request : Bytes → Request → Result Request Response
  unfolding to_bytes decrypt remove_header bad_request display
  open_request key req = if req.is_get then ok req else elim (to_bytes req.body) [
    | none ↦ err (bad_request (text "read encrypted body failed"))
    | some sealed ↦ elim (decrypt c key sealed) [
      | err e ↦
          err (
            bad_request (text "decrypt failed: " ++ (display e ++ text " (bad token or tampered)")))
      | ok plain ↦
          ok (record req { headers = remove_header enc_header req.headers; body = whole plain })
    ]
  ]

-- `next` is the rest of the service: what it does is no part of the layer.
module _ {S : Type 0} (c : Primitives) (next : Request → S → Response × S) where
  unfoldable pub with_token : Bytes → Text → Request → S → Response × S
  unfolding derive_key open_request seal_response
  with_token nonce token req s =
      let key = derive_key c token in
      elim (open_request c key req) [
        | err resp ↦ (resp, s)
        | ok inner ↦ let (resp, s') = next inner s in (seal_response c nonce key resp, s')
      ]

  unfoldable pub link_enc_middleware : LinkEncryptMode → Bytes → Request → S → Response × S
  unfolding starts_with is_exempt upgrade_required bad_request bearer_token with_token
  link_enc_middleware policy nonce req s =
      if not (wants_enc req)
      then if is_enforce policy && starts_with req.path (text "/v1/") && not (is_exempt req.path)
        then (upgrade_required, s)
        else next req s
      else if is_exempt req.path
      then next req s
      else if is_off policy
      then next req s
      else elim (bearer_token req.headers) [
        | none ↦ (bad_request (text "encrypted request requires bearer token"), s)
        | some t ↦
            if is_nil t
            then (bad_request (text "encrypted request requires bearer token"), s)
            else with_token nonce t req s
      ]
