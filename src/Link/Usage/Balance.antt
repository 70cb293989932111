-- ===== src/Link/Usage/Balance.antt =====
-- The counters of a member's own usage agree with each other.
use aipowergateway.Prelude.{
  ℕ, ◌≡◌, refl, ◌∙◌, ap, inl, inr, [], ◌∷◌, add_u64, unwrap_or, arith, Bool-cases,
}
use aipowergateway.Prelude.Text.{Text, text_eq}
use aipowergateway.Prelude.Map.{Map, lookup, insert}
use aipowergateway.Link.Usage.{PersonalUsage, total, record_usage}

-- The sum over the leaders, in a `u64`.
abbrev pub sum : Map ℕ → ℕ
sum [] = 0
sum ((k, n) ∷ m) = add_u64 n (sum m)

-- The tokens of the leaders add up to the tokens of both kinds.
abbrev pub IsBalanced : PersonalUsage → Type 0
IsBalanced u = sum u.leaders ≡ total u

swap : (a b n : ℕ) → add_u64 (add_u64 a n) b ≡ add_u64 (add_u64 a b) n
swap a b n = omega arith

assoc : (a b n : ℕ) → add_u64 a (add_u64 b n) ≡ add_u64 (add_u64 a b) n
assoc a b n = omega arith

sum-insert :
    (k : Text) (n x : ℕ) (m : Map ℕ)
    → unwrap_or (lookup k m) 0 ≡ x
    → sum (insert k (add_u64 x n) m) ≡ add_u64 (sum m) n
unfolding insert lookup
sum-insert k n x [] h = omega arith
sum-insert k n x ((j, w) ∷ m) h = elim (Bool-cases (text_eq j k)) [
  | inl e ↦ let same : w ≡ x = rw (e) at h in rw (e, ← same) (swap w (sum m) n)
  | inr e ↦
      let later : unwrap_or (lookup k m) 0 ≡ x = rw (e) at h in
      rw (e) (ap (add_u64 w) (sum-insert k n x m later) ∙ assoc w (sum m) n)
]

-- Recording keeps the leaders' sum equal to the total, whatever wraps.
record_usage-IsBalanced :
    (leader : Text) (prompt completion : ℕ) (u : PersonalUsage)
    → IsBalanced u
    → IsBalanced (record_usage leader prompt completion u)
unfolding record_usage total
record_usage-IsBalanced leader prompt completion u h =
    sum-insert leader (add_u64 prompt completion) _ u.leaders refl
    ∙ ap (λ s. add_u64 s (add_u64 prompt completion)) h
    ∙ four u.prompt_tokens u.completion_tokens prompt completion
  where
    four : (a b p q : ℕ) → add_u64 (add_u64 a b) (add_u64 p q) ≡ add_u64 (add_u64 a p) (add_u64 b q)
    four a b p q = omega arith
