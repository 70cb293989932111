-- ===== src/Backend/Keys.antt =====
-- Where the key of an entry comes from, and what is shown of it.
use aipowergateway.Prelude.{
  ◌≡◌, ◌≢◌, refl, subst, ap, sym, ◌∙◌, ◌≤◌, ◌<◌, Bool, true, false, Option, none, some, ◌++◌, arith,
  if◌then◌else◌, is_some, length, take, reverse, or_else,
}
use aipowergateway.Prelude.Text.{Text, text, text_eq, text_eq_refl}
use aipowergateway.Backend.{
  BackendEntry, filled, resolve_api_key, key_source, masked_key, mask, named_key, official,
}

-- The two functions on what the places hold: the file, the named variable, that of the provider, that
-- of CodeBuddy, and the common one.
abbrev pub source_of : Option Text → Option Text → Option Text → Option Text → Text
source_of file named own common =
    if is_some file
    then text "file"
    else if is_some named
    then text "env"
    else if is_some own
    then text "env"
    else if is_some common
    then text "env"
    else text "none"

abbrev pub key_of :
    Option Text → Option Text → Option Text → Option Text → Option Text → Option Text
key_of file named own extra common =
    or_else file (or_else named (or_else own (or_else extra common)))

-- Texts are told apart by `text_eq`.
apart : (s t : Text) → text_eq s t ≡ false → s ≢ t
apart s t h e = clash (subst (λ (v : Text). text_eq s v ≡ true) e (text_eq_refl s)) h
  where
    clash : {b : Bool} → b ≡ true → b ≡ false → ⊥
    clash p q = cc

source_of_lem :
    (file named own extra common : Option Text)
    → (source_of file named own common ≡ text "none" → key_of file named own extra common ≡ extra)
      × (key_of file named own extra common ≡ none → source_of file named own common ≡ text "none")
      × (source_of file named own common ≡ text "file" → key_of file named own extra common ≡ file)
unfolding text_eq
source_of_lem (some a) named own extra common =
    (λ h. absurd (apart (text "file") (text "none") refl h), λ h. cc, λ h. refl)
source_of_lem none (some b) own extra common = (
  λ h. absurd (apart (text "env") (text "none") refl h),
  λ h. cc,
  λ h. absurd (apart (text "env") (text "file") refl h),
)
source_of_lem none none (some c) extra common = (
  λ h. absurd (apart (text "env") (text "none") refl h),
  λ h. cc,
  λ h. absurd (apart (text "env") (text "file") refl h),
)
source_of_lem none none none (some x) (some d) = (
  λ h. absurd (apart (text "env") (text "none") refl h),
  λ h. cc,
  λ h. absurd (apart (text "env") (text "file") refl h),
)
source_of_lem none none none none (some d) = (
  λ h. absurd (apart (text "env") (text "none") refl h),
  λ h. cc,
  λ h. absurd (apart (text "env") (text "file") refl h),
)
source_of_lem none none none (some x) none =
    (λ h. refl, λ h. refl, λ h. absurd (apart (text "none") (text "file") refl h))
source_of_lem none none none none none =
    (λ h. refl, λ h. refl, λ h. absurd (apart (text "none") (text "file") refl h))

module _ (env : Text → Option Text) (upper : Text → Text) where
  -- If the panel reports no source, then the key used is that of CODEBUDDY_API_KEY, which counts for the
  -- provider `codebuddy` alone; if no key is found, the panel reports no source; and if it reports
  -- the file, then the key is the one that the entry holds.
  pub key_source-resolve_api_key :
      (e : BackendEntry)
      → (key_source env upper e ≡ text "none"
          → resolve_api_key env upper e ≡ (
              if text_eq e.provider (text "codebuddy")
              then filled (env (text "CODEBUDDY_API_KEY"))
              else none))
        × (resolve_api_key env upper e ≡ none → key_source env upper e ≡ text "none")
        × (key_source env upper e ≡ text "file" → resolve_api_key env upper e ≡ filled e.api_key)
  unfolding key_source resolve_api_key
  key_source-resolve_api_key e =
      source_of_lem (filled e.api_key) (named_key env upper e) (filled (env (official env upper e)))
        (if text_eq e.provider (text "codebuddy")
          then filled (env (text "CODEBUDDY_API_KEY"))
          else none)
        (filled (env (text "AIPOWERLINK_API_KEY")))

  masked_key-file :
      (e : BackendEntry) (k : Text) → filled e.api_key ≡ some k → masked_key env upper e ≡ mask k
  unfolding masked_key
  masked_key-file e k found = rw (found, masked_key) refl

  mask_short : (k : Text) → length k ≤ 7 → mask k ≡ text "***"
  unfolding mask
  mask_short k short = ground arith

  mask_long : (k : Text) → 7 < length k → mask k ≡ text "***" ++ reverse (take 4 (reverse k))
  unfolding mask
  mask_long k long = ground arith

  -- The mask of a key tells nothing of it but its last four characters, and of a key of at most seven
  -- characters nothing at all.
  mask_lem :
      (e f : BackendEntry) (k l : Text)
      → filled e.api_key ≡ some k
      → filled f.api_key ≡ some l
      → (length k ≤ 7 → masked_key env upper e ≡ text "***")
        × (7 < length k
            → 7 < length l
            → take 4 (reverse k) ≡ take 4 (reverse l)
            → masked_key env upper e ≡ masked_key env upper f)
  mask_lem e f k l key_e key_f = (
    λ short. masked_key-file e k key_e ∙ mask_short k short,
    λ long_e long_f same.
        masked_key-file e k key_e
        ∙ mask_long k long_e
        ∙ ap (λ t. text "***" ++ reverse t) same
        ∙ sym (masked_key-file f l key_f ∙ mask_long l long_f),
  )
