-- ===== src/Rules/Tests.antt =====
-- Runs of the resolver after the tests of the source, and its laws at such inputs.
use aipowergateway.Prelude.{
  ◌≡◌, refl, ◌≤◌, inl, true, none, some, [], ◌∷◌, if◌then◌else◌, IsMember, is_nil,
}
use aipowergateway.Prelude.Text.{text, text_eq}
use aipowergateway.Prelude.Map.{lookup, insert}
use aipowergateway.Prelude.Sort.{sort_by}
use aipowergateway.Rules.{
  Candidate, Rule, RuleSet, RuleSetsFile, Resolution, RuleResolver, new, upsert, load,
  load_from_file, len, list, rule_names, resolve, first, fits, tier_key, pick_rule, by_strategy,
  estimate_tokens,
}
use aipowergateway.Rules.Resolve.{first-resolve}

abbrev small : Candidate
small = record { model = text "moonshot-v1-8k"; max_prompt_tokens = some 6000 }

abbrev medium : Candidate
medium = record { model = text "moonshot-v1-32k"; max_prompt_tokens = some 28000 }

abbrev large : Candidate
large = record { model = text "moonshot-v1-128k"; max_prompt_tokens = none }

abbrev tier_rule : Rule
tier_rule = record {
  match_model = text "*";
  order = 1;
  strategy = text "token_tier";
  candidates = medium ∷ small ∷ large ∷ [];
  fallback = text "gpt-4o-mini" ∷ [];
}

abbrev tier_set : RuleSet
tier_set = record { id = text "rs"; name = text "cheap"; version = 2; rules = tier_rule ∷ [] }

abbrev resolver : RuleResolver
resolver = record { inner = (text "cheap", tier_set) ∷ [] }

abbrev resolution : Resolution
resolution = record {
  rule_set = text "cheap";
  candidates =
      text "moonshot-v1-8k"
      ∷ text "moonshot-v1-32k"
      ∷ text "moonshot-v1-128k"
      ∷ text "gpt-4o-mini"
      ∷ [];
}

token_tier_picks_smallest_that_fits :
    (upsert tier_set new ≡ resolver)
    × (resolve (text "cheap") 500 resolver ≡ some resolution)
    × (first resolution ≡ some (text "moonshot-v1-8k"))
    × (resolve (text "mock-7b") 500 resolver ≡ none)
unfolding upsert new insert resolve lookup sort_by first
token_tier_picks_smallest_that_fits = (refl, refl, refl, refl)

fixed_strategy_keeps_original_order :
    by_strategy (record tier_rule { strategy = text "fixed" }) 999999
    ≡ text "moonshot-v1-32k" ∷ text "moonshot-v1-8k" ∷ text "moonshot-v1-128k" ∷ []
unfolding by_strategy
fixed_strategy_keeps_original_order = refl

loading :
    (load (tier_set ∷ tier_set ∷ []) resolver ≡ resolver)
    × (load_from_file
          (λ bytes. if is_nil bytes then some (RuleSetsFile.single tier_set) else none)
          (some (0xEF ∷ 0xBB ∷ 0xBF ∷ []))
        ≡ resolver)
    × (len resolver ≡ 1)
    × (list resolver ≡ tier_set ∷ [])
    × (rule_names resolver ≡ text "cheap" ∷ [])
    × (estimate_tokens (text "twelve chars") ≡ 3)
    × (estimate_tokens [] ≡ 1)
unfolding load load_from_file insert len list rule_names sort_by estimate_tokens
loading = (refl, refl, refl, refl, refl, refl, refl)

first-resolve_example :
    (res : Resolution) × (f : Candidate) × (resolve (text "cheap") 7000 resolver ≡ some res)
    × (res.rule_set ≡ text "cheap")
    × (first res ≡ some f.model)
    × IsMember f tier_rule.candidates
    × (fits 7000 f ≡ true)
    × (tier_key f ≤ tier_key medium)
unfolding lookup pick_rule text_eq
first-resolve_example =
    first-resolve (text "cheap") 7000 resolver tier_set tier_rule refl refl medium refl (inl refl)
      refl refl
