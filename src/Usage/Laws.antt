-- ===== src/Usage/Laws.antt =====
-- The counters against the history of calls: what is counted is the sum of what was reported,
-- modulo the word size.
use aipowergateway.Prelude.{
  ℕ, ◌+◌, ◌%◌, ◌<◌, ◌≡◌, refl, none, some, List, [], ◌∷◌, arith, if◌then◌else◌, unwrap_or, u64_mod,
  leb,
}
use aipowergateway.Prelude.Text.{Text, text_eq, text_eq_iff}
use aipowergateway.Prelude.Map.{Map, lookup, lookup-insert}
use aipowergateway.Prelude.Sort.{IsSorted, sort_by-IsSorted}
use aipowergateway.Disk.{Disk}
use aipowergateway.Usage.{
  MemberUsage, UsageService, total, no_usage, add_tokens, new, get, count_call, record_call,
  record_rule, all,
}

-- A report to the service: a call, or a rule hit.
pub data Event : Type 0 where
  call : Text → Text → Text → ℕ → ℕ → Event
  rule_hit : Text → Text → ℕ → Event

-- What the handlers read for a quota check: the total of a member, 0 if it has none.
unfoldable pub used : Text → UsageService → ℕ
unfolding get total
used id s = elim (get id s) [ none ↦ 0 | some u ↦ total u ]

-- The tokens that one event reports for a member.
abbrev pub reported : Text → Event → ℕ
reported id (call member provider model prompt completion) =
    if text_eq member id then prompt + completion else 0
reported id (rule_hit member rule_set tokens) = 0

abbrev pub sum_of : (Event → ℕ) → List Event → ℕ
sum_of f [] = 0
sum_of f (e ∷ es) = f e + sum_of f es

used-new : (id : Text) → used id (new none) ≡ 0
unfolding used get new lookup
used-new id = refl

module _ (disk : Disk (Map MemberUsage)) where
  unfoldable pub report : Event → UsageService → UsageService
  report (call member provider model prompt completion) s =
      record_call disk member provider model prompt completion s
  report (rule_hit member rule_set tokens) s = record_rule disk member rule_set tokens s

  unfoldable pub report_all : List Event → UsageService → UsageService
  unfolding report
  report_all [] s = s
  report_all (e ∷ es) s = report_all es (report e s)

  used-report :
      (id : Text) (e : Event) (s : UsageService)
      → used id (report e s) ≡ (used id s + reported id e) % u64_mod
  unfolding used report record_call record_rule get
  used-report id (call member provider model prompt completion) s =
      let old = unwrap_or (lookup member s.by_member) (no_usage member) in
      ground (
        arith,
        lookup-insert member id (count_call provider model prompt completion old) s.by_member,
        text_eq_iff member id,
      )
  used-report id (rule_hit member rule_set tokens) s =
      let old = unwrap_or (lookup member s.by_member) (no_usage member) in
      let counted : MemberUsage = record old {
        rule_set_tokens = add_tokens rule_set tokens old.rule_set_tokens;
      } in
      ground (arith, lookup-insert member id counted s.by_member, text_eq_iff member id)

  -- A counter that each event raises by its share holds the sum of the shares.
  counter-report_all :
      (counter : UsageService → ℕ) (share : Event → ℕ)
      → ((e : Event) (s : UsageService)
          → counter (report e s) % u64_mod ≡ (counter s + share e) % u64_mod)
      → (es : List Event) (s : UsageService)
      → counter (report_all es s) % u64_mod ≡ (counter s + sum_of share es) % u64_mod
  unfolding report_all
  counter-report_all counter share step [] s = omega arith
  counter-report_all counter share step (e ∷ es) s =
      omega (arith, counter-report_all counter share step es (report e s), step e s)

  pub counter-report_all-new :
      (counter : UsageService → ℕ) (share : Event → ℕ)
      → counter (new none) ≡ 0
      → ((e : Event) (s : UsageService)
          → counter (report e s) % u64_mod ≡ (counter s + share e) % u64_mod)
      → (es : List Event) → counter (report_all es (new none)) % u64_mod ≡ sum_of share es % u64_mod
  counter-report_all-new counter share none_yet step es =
      omega (arith, counter-report_all counter share step es (new none))

  used-lt : (id : Text) (s : UsageService) → used id s < u64_mod
  unfolding used
  used-lt id s = ground arith

  -- From an empty file on, the total of a member is the sum of the prompt and completion tokens of
  -- that member's calls, modulo 2^64: no call is lost or counted twice, no other member's calls
  -- and no rule hits are counted.
  pub used-report_all-new :
      (id : Text) (es : List Event)
      → used id (report_all es (new none)) ≡ sum_of (reported id) es % u64_mod
  used-report_all-new id es = omega (
    arith,
    used-lt id (report_all es (new none)),
    counter-report_all-new (used id) (reported id) (used-new id)
        (λ e s. omega (arith, used-report id e s)) es,
  )

-- The members are listed by their totals, the largest first.
totals-IsSorted : (s : UsageService) → IsSorted (λ a b. leb (total b) (total a)) (all s)
unfolding all
totals-IsSorted s =
    sort_by-IsSorted (λ a b. leb (total b) (total a)) (λ a b h. ground arith)
      (λ a b c h k. ground arith) _
