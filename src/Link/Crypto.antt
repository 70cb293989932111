-- ===== src/Link/Crypto.antt =====
-- crates/link-crypto/src/lib.rs: compress and seal a body, open and decompress it. The ciphers, gzip
-- and SHA-256 are no code of this repository.
pub mod Sealed
use aipowergateway.Prelude.{
  ℕ, zero, suc, ◌+◌, ◌≤◌, ◌≡◌, refl, sym, ◌∙◌, ap, inl, inr, Bool, true, false, Option, none, some,
  List, [], ◌∷◌, ◌++◌, ◌&&◌, leb, ltb, if◌then◌else◌, length, take, arith, Result, ok, err, any,
  Result-cases, ok_inj,
}
use aipowergateway.Prelude.Text.{Text, text, text_eq, trim}

abbrev pub Bytes : Type 0
Bytes = List ℕ

-- `to_ascii_lowercase`
unfoldable pub to_lower : Text → Text
to_lower [] = []
to_lower (c ∷ s) = (if leb b'A' c && leb c b'Z' then c + 32 else c) ∷ to_lower s

pub data LinkEncryptMode : Type 0 where
  off aes_gcm enforce tls : LinkEncryptMode

abbrev one_of : Text → List Text → Bool
one_of s ts = any (λ t. text_eq t s) ts

unfoldable pub parse : Text → LinkEncryptMode
unfolding trim to_lower text_eq
parse s =
    let word = to_lower (trim s) in
    if one_of word (text "aes-gcm" ∷ text "aes_gcm" ∷ text "aes" ∷ [])
    then aes_gcm
    else if one_of word (text "enforce" ∷ text "strict" ∷ text "mandatory" ∷ [])
    then enforce
    else if one_of word (text "tls" ∷ text "quic" ∷ [])
    then tls
    else off

unfoldable pub as_str : LinkEncryptMode → Text
as_str off = text "off"
as_str aes_gcm = text "aes-gcm"
as_str enforce = text "enforce"
as_str tls = text "tls"

unfoldable pub encrypts : LinkEncryptMode → Bool
encrypts off = false
encrypts mode = true

-- `parse` reads back every mode that `as_str` writes.
parse-as_str : (m : LinkEncryptMode) → parse (as_str m) ≡ m
unfolding parse as_str
parse-as_str off = refl
parse-as_str aes_gcm = refl
parse-as_str enforce = refl
parse-as_str tls = refl

pub data LinkCryptoError : Type 0 where
  too_short : ℕ → LinkCryptoError
  decompress : Text → LinkCryptoError
  decrypt_failed : LinkCryptoError

-- `seal key nonce` is AES-256-GCM with its tag at the end, `unseal` its inverse.
pub record Primitives : Type 0 where
  pub gzip : ℕ → Bytes → Bytes
  pub gunzip : Bytes → Result Bytes Text
  pub seal : Bytes → Bytes → Bytes → Bytes
  pub unseal : Bytes → Bytes → Bytes → Option Bytes
  pub sha256 : Text → Bytes

-- What the code relies on: both pairs are inverse to each other, and a tag has sixteen bytes.
pub record IsInverse (c : Primitives) : Type 0 where
  pub unzips : (level : ℕ) (p : Bytes) → c.gunzip (c.gzip level p) ≡ ok p
  pub opens : (key nonce p : Bytes) → c.unseal key nonce (c.seal key nonce p) ≡ some p
  pub tagged : (key nonce p : Bytes) → length (c.seal key nonce p) ≡ 16 + length p

abbrev pub nonce_len : ℕ
nonce_len = 12

abbrev pub drop : ℕ → Bytes → Bytes
drop zero xs = xs
drop (suc n) [] = []
drop (suc n) (x ∷ xs) = drop n xs

-- The level of `new` and that of `fast`.
abbrev pub new_level : ℕ
new_level = 6

abbrev pub fast_level : ℕ
fast_level = 1

module _ (c : Primitives) where
  unfoldable pub derive_key : Text → Bytes
  derive_key token = c.sha256 token

  -- The nonce is what the system's generator filled in.
  unfoldable pub encrypt : ℕ → Bytes → Bytes → Bytes → Bytes
  encrypt level nonce key plain = nonce ++ c.seal key nonce (c.gzip level plain)

  unfoldable pub decrypt : Bytes → Bytes → Result Bytes LinkCryptoError
  decrypt key raw =
      if ltb (length raw) (nonce_len + 16)
      then err (too_short (length raw))
      else elim (c.unseal key (take nonce_len raw) (drop nonce_len raw)) [
        | none ↦ err decrypt_failed
        | some compressed ↦ elim (c.gunzip compressed) [
          | ok out ↦ ok out
          | err e ↦ err (decompress e)
        ]
      ]
