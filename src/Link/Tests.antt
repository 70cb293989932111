-- ===== src/Link/Tests.antt =====
-- The theorems on the link at concrete keys, requests and leaders.
use aipowergateway.Prelude.{
  ◌≢◌, ℕ, ◌+◌, ◌≤◌, ◌≡◌, refl, ◌⊎◌, true, false, Option, none, some, [], ◌∷◌, ◌++◌, arith, length,
  ltb, if◌then◌else◌, ok, All, IsMember,
}
use aipowergateway.Prelude.Text.{Text, text, text_eq, trim, starts_with}
use aipowergateway.Prelude.Map.{lookup}
use aipowergateway.Json.{Value}
use aipowergateway.Link.Crypto.Sealed.{decrypt-encrypt, decrypt-ok}
use aipowergateway.Link.Crypto.{
  Bytes, aes_gcm, enforce, Primitives, IsInverse, encrypt, decrypt, nonce_len, new_level,
}
use aipowergateway.Link.Leader.{
  Request, Response, get_header, enc_header, enc_version, whole, strip_prefix, is_visible,
  is_exempt, link_enc_middleware,
}
use aipowergateway.Link.Leader.Enforced.{Served, link_enc_middleware-IsSealed}
use aipowergateway.Link.Discovery.{
  LeaderInfo, DiscoveryClient, BroadcastConfig, announcement, handle_announce, id, link_base,
  at_port, leaders,
}
use aipowergateway.Link.Discovery.Announced.{handle_announce-announcement}
use aipowergateway.Link.Member
use aipowergateway.Link.Member.{MemberGateway, pick_leader, proxy}
use aipowergateway.Link.Member.Pick.{pick_leader-IsFreshest}
use aipowergateway.Link.Channel.{channel}
use aipowergateway.Link.Channel.Joined.{proxy-link_enc_middleware}

abbrev tag : Bytes
tag = 1 ∷ 2 ∷ 3 ∷ 4 ∷ 5 ∷ 6 ∷ 7 ∷ 8 ∷ 9 ∷ 10 ∷ 11 ∷ 12 ∷ 13 ∷ 14 ∷ 15 ∷ 16 ∷ []

abbrev skip : Bytes → Bytes
skip (a ∷ b ∷ c ∷ d ∷ e ∷ f ∷ g ∷ h ∷ i ∷ j ∷ k ∷ l ∷ m ∷ n ∷ o ∷ p ∷ s) = s
skip s = []

-- Stand-ins for the ciphers: a tag before the plain text.
abbrev plain_ciphers : Primitives
plain_ciphers = record {
  gzip = λ level p. p;
  gunzip = λ p. ok p;
  seal = λ key nonce p. tag ++ p;
  unseal = λ key nonce p. some (skip p);
  sha256 = λ t. t;
}

inverse : IsInverse plain_ciphers
inverse = record {
  unzips = λ level p. refl;
  opens = λ key nonce p. refl;
  tagged = λ key nonce p. omega arith;
}

abbrev nonce : Bytes
nonce = 9 ∷ 8 ∷ 7 ∷ 6 ∷ 5 ∷ 4 ∷ 3 ∷ 2 ∷ 1 ∷ 0 ∷ 1 ∷ 2 ∷ []

abbrev hello : Bytes
hello = text "hello"

abbrev key : Bytes
key = text "secret"

decrypt-encrypt_example :
    decrypt plain_ciphers key (encrypt plain_ciphers new_level nonce key hello) ≡ ok hello
decrypt-encrypt_example = decrypt-encrypt plain_ciphers new_level nonce key hello inverse refl

decrypt-ok_example :
    (n ct z : Bytes) × (nonce ++ (tag ++ hello) ≡ n ++ ct)
    × (length n ≡ nonce_len)
    × (16 ≤ length ct)
    × (plain_ciphers.unseal key n ct ≡ some z)
    × (plain_ciphers.gunzip z ≡ ok hello)
unfolding decrypt
decrypt-ok_example = decrypt-ok plain_ciphers key (nonce ++ (tag ++ hello)) hello refl

-- Handlers that count the requests and answer with the body.
abbrev echo : Request → ℕ → Response × ℕ
echo req n = (record { status = 200; headers = []; body = req.body }, n + 1)

abbrev chat_path : Text
chat_path = text "/v1/chat/completions"

abbrev bearer : Text
bearer = text "Bearer sk-1"

abbrev clear_request : Request
clear_request = record {
  path = chat_path;
  is_get = false;
  headers = (text "authorization", bearer) ∷ [];
  body = whole hello;
}

abbrev sealed_request : Request
sealed_request = record clear_request {
  headers = (enc_header, enc_version) ∷ (text "authorization", bearer) ∷ [];
  body = whole (nonce ++ (tag ++ hello));
}

link_enc_middleware-IsSealed_example :
    ((get_header enc_header sealed_request.headers ≢ some enc_version)
      × ((link_enc_middleware plain_ciphers echo enforce nonce sealed_request 0).0.status ≡ 426)
      × ((link_enc_middleware plain_ciphers echo enforce nonce sealed_request 0).1 ≡ 0))
    ⊎ ((get_header enc_header sealed_request.headers ≡ some enc_version)
        × ((((link_enc_middleware plain_ciphers echo enforce nonce sealed_request 0).0.status ≡ 400)
              × ((link_enc_middleware plain_ciphers echo enforce nonce sealed_request 0).1 ≡ 0))
            ⊎ Served plain_ciphers echo nonce sealed_request 0
                (link_enc_middleware plain_ciphers echo enforce nonce sealed_request 0)))
unfolding starts_with is_exempt text_eq
link_enc_middleware-IsSealed_example =
    link_enc_middleware-IsSealed plain_ciphers echo nonce sealed_request 0 refl refl

abbrev near : LeaderInfo
near = record {
  name = text "team";
  api_port = 39091;
  share_port = some 39092;
  fingerprint = [];
  address = text "10.0.0.2";
  last_seen = 95;
  online = true;
}

abbrev heard : DiscoveryClient
heard = record {
  online_threshold_secs = 30;
  leaders = (text "a", near) ∷ (text "b", record near { last_seen = 99 }) ∷ [];
}

abbrev gateway : MemberGateway
gateway = record { discovery = heard; static_leader = some near; encrypt_mode = aes_gcm }

abbrev local_gateway : MemberGateway
local_gateway = record gateway { static_leader = none }

proxy-link_enc_middleware_example :
    proxy plain_ciphers
      (channel plain_ciphers echo enforce nonce chat_path)
      100
      gateway
      nonce
      chat_path
      (some bearer)
      (some hello)
      0
    ≡ (ok (200, hello), 1)
unfolding Member.is_exempt is_visible strip_prefix trim text_eq encrypt
proxy-link_enc_middleware_example =
    proxy-link_enc_middleware plain_ciphers echo gateway near enforce 100 nonce nonce chat_path
      bearer (text "sk-1") hello hello 0 inverse refl refl refl refl refl refl refl refl refl
      (omega arith) refl (omega arith)

abbrev config : BroadcastConfig
config = record {
  port = 39090;
  name = text "team";
  api_port = 39091;
  share_port = 39092;
  fingerprint = [];
  interval_secs = 10;
  target = text "255.255.255.255";
}

abbrev read_announcement : Text → Option Value
read_announcement t = some (announcement config)

handle_announce-announcement_example :
    (l : LeaderInfo) × (lookup
        (id l)
        (handle_announce read_announcement (text "{}") (text "10.0.0.2") 7 heard).leaders
      ≡ some l)
    × (l.name ≡ text "team")
    × (l.last_seen ≡ 7)
    × (link_base l ≡ at_port (text "10.0.0.2") (if ltb 0 39092 then 39092 else 39091))
unfolding text_eq trim
handle_announce-announcement_example =
    handle_announce-announcement read_announcement config (text "{}") (text "10.0.0.2") 7 heard refl
      refl refl (omega arith) (omega arith) (omega arith)

pick_leader-IsFreshest_example :
    ((l : LeaderInfo)
      → pick_leader 100 local_gateway ≡ some l
      → IsMember l (leaders 100 heard)
        × (l.online ≡ true)
        × ((m : LeaderInfo)
            → IsMember m (leaders 100 heard)
            → m.online ≡ true
            → m.last_seen ≤ l.last_seen))
    × (pick_leader 100 local_gateway ≡ none → All (λ m. m.online ≡ false) (leaders 100 heard))
pick_leader-IsFreshest_example = pick_leader-IsFreshest 100 local_gateway refl
