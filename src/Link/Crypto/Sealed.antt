-- ===== src/Link/Crypto/Sealed.antt =====
-- What is sealed is opened again, and what is opened has the form of a sealed payload.
use aipowergateway.Prelude.{
  ℕ, zero, suc, ◌+◌, ◌≤◌, ◌≡◌, refl, sym, ◌∙◌, ap, inl, inr, Bool, true, false, Option, none, some,
  [], ◌∷◌, ◌++◌, ltb, if◌then◌else◌, length, take, arith, Result, ok, err, Result-cases, ok_inj,
}
use aipowergateway.Prelude.Text.{Text}
use aipowergateway.Link.Crypto.{
  Bytes, LinkCryptoError, decompress, decrypt_failed, Primitives, IsInverse, nonce_len, drop,
  encrypt, decrypt,
}

take-append : (n : ℕ) (xs ys : Bytes) → length xs ≡ n → take n (xs ++ ys) ≡ xs
take-append zero [] ys h = refl
take-append zero (x ∷ xs) ys h = absurd (omega arith)
take-append (suc n) [] ys h = absurd (omega arith)
take-append (suc n) (x ∷ xs) ys h = ap (λ l. x ∷ l) (take-append n xs ys (omega arith))

drop-append : (n : ℕ) (xs ys : Bytes) → length xs ≡ n → drop n (xs ++ ys) ≡ ys
drop-append zero [] ys h = refl
drop-append zero (x ∷ xs) ys h = absurd (omega arith)
drop-append (suc n) [] ys h = absurd (omega arith)
drop-append (suc n) (x ∷ xs) ys h = drop-append n xs ys (omega arith)

length-append : (xs ys : Bytes) → length (xs ++ ys) ≡ length xs + length ys
length-append [] ys = omega arith
length-append (x ∷ xs) ys = omega (arith, length-append xs ys)

take-drop : (n : ℕ) (xs : Bytes) → take n xs ++ drop n xs ≡ xs
take-drop zero xs = refl
take-drop (suc n) [] = refl
take-drop (suc n) (x ∷ xs) = ap (λ l. x ∷ l) (take-drop n xs)

length-take : (n : ℕ) (xs : Bytes) → n ≤ length xs → length (take n xs) ≡ n
length-take zero xs h = refl
length-take (suc n) [] h = absurd (omega arith)
length-take (suc n) (x ∷ xs) h = omega (arith, length-take n xs)

opened_body :
    (gunzip : Bytes → Result Bytes Text) (b : Bool) (e : LinkCryptoError) (o : Option Bytes)
    (plain : Bytes)
    → Path
        (Result Bytes LinkCryptoError)
        (if b then err e else elim o [
          | none ↦ err decrypt_failed
          | some compressed ↦ elim (gunzip compressed) [
            | ok out ↦ ok out
            | err e ↦ err (decompress e)
          ]
        ])
        (ok plain)
    → (b ≡ false) × ((z : Bytes) × (o ≡ some z) × (gunzip z ≡ ok plain))
opened_body gunzip true e o plain h = cc
opened_body gunzip false e none plain h = cc
opened_body gunzip false e0 (some z) plain h = elim (Result-cases (gunzip z)) [
  | inl (e, bad) ↦
      let clash : Path (Result Bytes LinkCryptoError) (err (decompress e)) (ok plain) =
        rw (bad) at h in
      cc
  | inr (out, good) ↦
      let same : Path (Result Bytes LinkCryptoError) (ok out) (ok plain) = rw (good) at h in
      (refl, (z, refl, good ∙ ap ok (ok_inj same)))
]

module _ (c : Primitives) where
  -- What is sealed at any level with a nonce of twelve bytes is opened with the same key.
  pub decrypt-encrypt :
      (level : ℕ) (nonce key plain : Bytes)
      → IsInverse c
      → length nonce ≡ nonce_len
      → decrypt c key (encrypt c level nonce key plain) ≡ ok plain
  unfolding decrypt encrypt
  decrypt-encrypt level nonce key plain inverse h =
      let ct = c.seal key nonce (c.gzip level plain) in
      let size : ltb (length (nonce ++ ct)) (nonce_len + 16) ≡ false =
        let total = length-append nonce ct in
        let tail = inverse.tagged key nonce (c.gzip level plain) in ground arith in
      rw
        (
          size,
          take-append nonce_len nonce ct h,
          drop-append nonce_len nonce ct h,
          inverse.opens key nonce (c.gzip level plain),
          inverse.unzips level plain,
        )
        refl

  -- A payload that is opened is at least the 28 bytes of a nonce and a tag: twelve bytes of nonce,
  -- and a rest that the key opens to the compressed plain text.
  pub decrypt-ok :
      (key raw plain : Bytes)
      → decrypt c key raw ≡ ok plain
      → (nonce ct z : Bytes) × (raw ≡ nonce ++ ct)
        × (length nonce ≡ nonce_len)
        × (16 ≤ length ct)
        × (c.unseal key nonce ct ≡ some z)
        × (c.gunzip z ≡ ok plain)
  unfolding decrypt
  decrypt-ok key raw plain h =
      let (size, (z, opened, unzipped)) = opened_body c.gunzip _ _ _ plain h in
      let whole = take-drop nonce_len raw in
      let enough : 28 ≤ length raw = ground arith in
      let front = length-take nonce_len raw (omega arith) in
      (
        take nonce_len raw,
        drop nonce_len raw,
        z,
        sym whole,
        front,
        split_size front whole enough,
        opened,
        unzipped,
      )
    where
      split_size :
          length (take nonce_len raw) ≡ nonce_len
          → take nonce_len raw ++ drop nonce_len raw ≡ raw
          → 28 ≤ length raw
          → 16 ≤ length (drop nonce_len raw)
      split_size front whole enough =
          let total = length-append (take nonce_len raw) (drop nonce_len raw) in
          let same = ap length whole in omega arith
