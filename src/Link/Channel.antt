-- ===== src/Link/Channel.antt =====
-- A member's gateway and the layer of the leader, joined: a request travels from the one to the
-- other, and the response back.
mod MemberSide
mod LeaderSide
pub mod Joined
use aipowergateway.Prelude.{
  ℕ, ◌≤◌, ◌≡◌, refl, sym, ◌∙◌, ap, subst, inl, inr, Bool, true, false, not, Option, none, some,
  List, [], ◌∷◌, ◌++◌, ◌&&◌, ◌||◌, leb, le→leb, if◌then◌else◌, arith, Bool-cases, length, is_nil,
  is_some, unwrap_or, Result, ok, err, ◌>>=◌,
}
use mathlib.Core.Option
use aipowergateway.Prelude.Text.{Text, text, text_eq, text_eq_iff, trim, trim_end_matches}
use aipowergateway.Link.Crypto.Sealed.{decrypt-encrypt}
use aipowergateway.Link.Crypto.{
  Bytes, LinkEncryptMode, LinkCryptoError, Primitives, IsInverse, derive_key, encrypt, decrypt,
  nonce_len, new_level,
}
use aipowergateway.Link.Leader.{
  Headers, header_str, Request, Response, Body, whole, broken, enc_header, enc_version,
  content_type, body_limit, is_visible, strip_prefix, is_off, get_header, remove_header, to_bytes,
  bearer_token, is_exempt, open_request, seal_response, with_token, link_enc_middleware, refill,
  bad_request, display,
}
use aipowergateway.Link.Discovery.{LeaderInfo, link_base}
use aipowergateway.Link.Member
use aipowergateway.Link.Member.{
  MemberGateway, HttpRequest, HttpResponse, pick_leader, link_encrypts, token_of, is_encrypting,
  request_of, read_response, proxy, zero_key,
}

-- The request as the leader reads it, and the response as the member reads it.
abbrev pub arrives : Text → HttpRequest → Request
arrives path r = record {
  path = path;
  is_get = not (is_some r.body);
  headers = r.headers;
  body = whole (unwrap_or r.body []);
}

abbrev pub returns : Response → HttpResponse
returns r = record {
  status = r.status;
  headers = r.headers;
  body = elim r.body [ whole b ↦ ok b | broken ↦ err (text "connection closed") ];
}

-- The request that the handlers of the leader see.
abbrev pub plain_request : Text → Text → Bytes → Request
plain_request path auth body = record {
  path = path;
  is_get = false;
  headers = (text "authorization", auth) ∷ (content_type, text "application/json") ∷ [];
  body = whole body;
}

module _ {S : Type 0} (c : Primitives) (next : Request → S → Response × S) where
  -- The network between the two, for requests to one path.
  abbrev pub channel :
      LinkEncryptMode → Bytes → Text → HttpRequest → S → Result HttpResponse Text × S
  channel policy nonce path r s =
      let (resp, s') = link_enc_middleware c next policy nonce (arrives path r) s in
      (ok (returns resp), s')
