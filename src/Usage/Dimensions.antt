-- ===== src/Usage/Dimensions.antt =====
-- The counters by model, provider and rule set against the history of calls.
use aipowergateway.Prelude.{
  ℕ, ◌+◌, ◌%◌, ◌≡◌, refl, false, ◌&&◌, not, none, List, arith, if◌then◌else◌, Bool-cases, inl, inr,
  is_nil, unwrap_or, add_u64, u64_mod,
}
use aipowergateway.Prelude.Text.{Text, text_eq, text_eq_iff}
use aipowergateway.Prelude.Map.{Map, lookup, lookup-insert}
use aipowergateway.Disk.{Disk}
use aipowergateway.Usage.{
  MemberUsage, UsageService, no_usage, add_tokens, new, get, save, count_call, record_call,
  record_rule,
}
use aipowergateway.Usage.Laws.{
  Event, call, rule_hit, report, report_all, sum_of, counter-report_all-new,
}

-- A counter of an entry, 0 where the key is not there.
abbrev pub at : Text → Map ℕ → ℕ
at key m = unwrap_or (lookup key m) 0

-- The entry of a member; a member that never called has an empty one.
unfoldable pub entry_of : Text → UsageService → MemberUsage
unfolding get
entry_of id s = unwrap_or (get id s) (no_usage id)

-- The tokens that one event reports for a member and a model, a provider, a rule set.
abbrev pub reported_model : Text → Text → Event → ℕ
reported_model id key (call member provider model prompt completion) =
    if text_eq member id && text_eq model key then prompt + completion else 0
reported_model id key (rule_hit member rule_set tokens) = 0

abbrev pub reported_provider : Text → Text → Event → ℕ
reported_provider id key (call member provider model prompt completion) =
    if text_eq member id && text_eq provider key then prompt + completion else 0
reported_provider id key (rule_hit member rule_set tokens) = 0

abbrev pub reported_rule : Text → Text → Event → ℕ
reported_rule id key (call member provider model prompt completion) = 0
reported_rule id key (rule_hit member rule_set tokens) =
    if text_eq member id && text_eq rule_set key then tokens else 0

lookup-add_tokens :
    (k j : Text) (n : ℕ) (m : Map ℕ)
    → unwrap_or (lookup j (add_tokens k n m)) 0
      ≡ (if text_eq k j then add_u64 (unwrap_or (lookup j m) 0) n else unwrap_or (lookup j m) 0)
unfolding add_tokens
lookup-add_tokens k j n m =
    ground (arith, lookup-insert k j (add_u64 (unwrap_or (lookup k m) 0) n) m, text_eq_iff k j)

model_tokens-count_call :
    (key provider model : Text) (prompt completion : ℕ) (u : MemberUsage)
    → is_nil key ≡ false
    → at key (count_call provider model prompt completion u).model_tokens % u64_mod
      ≡ (at key u.model_tokens + (if text_eq model key then prompt + completion else 0)) % u64_mod
unfolding count_call
model_tokens-count_call key provider model prompt completion u named =
    elim (Bool-cases (is_nil model)) [
      | inl empty ↦ rw (empty, count_call) (ground (arith, text_eq_iff model key))
      | inr full ↦
          rw (full, count_call)
            (ground (arith, lookup-add_tokens model key (add_u64 prompt completion) u.model_tokens))
    ]

provider_tokens-count_call :
    (key provider model : Text) (prompt completion : ℕ) (u : MemberUsage)
    → is_nil key ≡ false
    → at key (count_call provider model prompt completion u).provider_tokens % u64_mod
      ≡ (at key u.provider_tokens + (if text_eq provider key then prompt + completion else 0))
        % u64_mod
unfolding count_call
provider_tokens-count_call key provider model prompt completion u named =
    elim (Bool-cases (is_nil provider)) [
      | inl empty ↦ rw (empty, count_call) (ground (arith, text_eq_iff provider key))
      | inr full ↦
          rw (full, count_call)
            (ground
              (arith, lookup-add_tokens provider key (add_u64 prompt completion) u.provider_tokens))
    ]

rule_set_tokens-count_call :
    (provider model : Text) (prompt completion : ℕ) (u : MemberUsage)
    → (count_call provider model prompt completion u).rule_set_tokens ≡ u.rule_set_tokens
unfolding count_call
rule_set_tokens-count_call provider model prompt completion u = refl

module _ (disk : Disk (Map MemberUsage)) where
  entry_of-report_call :
      (member provider model id : Text) (prompt completion : ℕ) (s : UsageService)
      → entry_of id (report disk (call member provider model prompt completion) s) ≡ (
          if text_eq member id
          then count_call provider model prompt completion (entry_of id s)
          else entry_of id s)
  unfolding entry_of report record_call save get
  entry_of-report_call member provider model id prompt completion s = ground (
    arith,
    lookup-insert member id
        (count_call provider model prompt completion
          (unwrap_or (lookup member s.by_member) (no_usage member)))
        s.by_member,
    text_eq_iff member id,
  )

  entry_of-report_rule :
      (member rule_set id : Text) (tokens : ℕ) (s : UsageService)
      → entry_of id (report disk (rule_hit member rule_set tokens) s) ≡ (
          if text_eq member id && not (is_nil rule_set)
          then record (entry_of id s) {
            rule_set_tokens = add_tokens rule_set tokens (entry_of id s).rule_set_tokens;
          }
          else entry_of id s)
  unfolding entry_of report record_rule save get
  entry_of-report_rule member rule_set id tokens s =
      let old = unwrap_or (lookup member s.by_member) (no_usage member) in
      let counted : MemberUsage = record old {
        rule_set_tokens = add_tokens rule_set tokens old.rule_set_tokens;
      } in
      elim (Bool-cases (is_nil rule_set)) [
        | inl empty ↦ rw (empty, entry_of, report, record_rule) (ground arith)
        | inr named ↦
            rw (named, entry_of, report, record_rule)
              (ground (arith, lookup-insert member id counted s.by_member, text_eq_iff member id))
      ]

  module _ (id key : Text) (named : is_nil key ≡ false) where
    model_tokens-report :
        (e : Event) (s : UsageService)
        → at key (entry_of id (report disk e s)).model_tokens % u64_mod
          ≡ (at key (entry_of id s).model_tokens + reported_model id key e) % u64_mod
    model_tokens-report (call member provider model prompt completion) s = ground (
      arith,
      entry_of-report_call member provider model id prompt completion s,
      model_tokens-count_call key provider model prompt completion (entry_of id s),
    )
    model_tokens-report (rule_hit member rule_set tokens) s =
        ground (arith, entry_of-report_rule member rule_set id tokens s)

    provider_tokens-report :
        (e : Event) (s : UsageService)
        → at key (entry_of id (report disk e s)).provider_tokens % u64_mod
          ≡ (at key (entry_of id s).provider_tokens + reported_provider id key e) % u64_mod
    provider_tokens-report (call member provider model prompt completion) s = ground (
      arith,
      entry_of-report_call member provider model id prompt completion s,
      provider_tokens-count_call key provider model prompt completion (entry_of id s),
    )
    provider_tokens-report (rule_hit member rule_set tokens) s =
        ground (arith, entry_of-report_rule member rule_set id tokens s)

    rule_set_tokens-report :
        (e : Event) (s : UsageService)
        → at key (entry_of id (report disk e s)).rule_set_tokens % u64_mod
          ≡ (at key (entry_of id s).rule_set_tokens + reported_rule id key e) % u64_mod
    rule_set_tokens-report (call member provider model prompt completion) s = ground (
      arith,
      entry_of-report_call member provider model id prompt completion s,
      rule_set_tokens-count_call provider model prompt completion (entry_of id s),
    )
    rule_set_tokens-report (rule_hit member rule_set tokens) s = ground (
      arith,
      entry_of-report_rule member rule_set id tokens s,
      text_eq_iff rule_set key,
      lookup-add_tokens rule_set key tokens (entry_of id s).rule_set_tokens,
    )

    -- From an empty file on, what a member's entry holds under the name of a model, of a provider
    -- and of a rule set is the sum of the tokens that were reported for that member under that
    -- name, modulo 2^64.
    entry_of-report_all :
        (es : List Event)
        → let u = entry_of id (report_all disk es (new none)) in
          (at key u.model_tokens % u64_mod ≡ sum_of (reported_model id key) es % u64_mod)
          × (at key u.provider_tokens % u64_mod ≡ sum_of (reported_provider id key) es % u64_mod)
          × (at key u.rule_set_tokens % u64_mod ≡ sum_of (reported_rule id key) es % u64_mod)
    unfolding new entry_of lookup
    entry_of-report_all es = (
      counter-report_all-new disk (λ s. at key (entry_of id s).model_tokens) (reported_model id key)
          refl model_tokens-report es,
      counter-report_all-new disk (λ s. at key (entry_of id s).provider_tokens)
          (reported_provider id key) refl provider_tokens-report es,
      counter-report_all-new disk (λ s. at key (entry_of id s).rule_set_tokens)
          (reported_rule id key) refl rule_set_tokens-report es,
    )
