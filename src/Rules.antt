-- ===== src/Rules.antt =====
-- crates/lan-share/src/rules.rs: a requested model may be the name of a rule set, which resolves to
-- a sequence of real models.
pub mod Resolve
pub mod Laws
mod Tests
use Prim.Native.Nat.{max}
use aipowergateway.Prelude.{
  ℕ, ◌-◌, ◌/◌, Bool, true, false, not, Option, none, some, List, [], ◌∷◌, ◌++◌, map, ltb, leb,
  if◌then◌else◌, is_nil, is_some, find, retain, or_else, unwrap_or, length, head, u64_mod, ◌>>=◌,
  filter_map,
}
use aipowergateway.Prelude.Text.{Text, text, text_eq, text_le, starts_with}
use aipowergateway.Prelude.Map.{Map, lookup, insert, remove, values, keys, contains_key}
use aipowergateway.Prelude.Sort.{sort_by}

pub record Candidate : Type 0 where
  pub model : Text
  pub max_prompt_tokens : Option ℕ

pub record Rule : Type 0 where
  pub match_model : Text
  pub order : ℕ
  pub strategy : Text
  pub candidates : List Candidate
  pub fallback : List Text

pub record RuleSet : Type 0 where
  pub id : Text
  pub name : Text
  pub version : ℕ
  pub rules : List Rule

pub record Resolution : Type 0 where
  pub rule_set : Text
  pub candidates : List Text

unfoldable pub first : Resolution → Option Text
first r = head r.candidates

pub data RuleSetsFile : Type 0 where
  single : RuleSet → RuleSetsFile
  many : List RuleSet → RuleSetsFile

pub record RuleResolver : Type 0 where
  pub inner : Map RuleSet

unfoldable pub new : RuleResolver
new = record { inner = [] }

unfoldable pub upsert : RuleSet → RuleResolver → RuleResolver
upsert rs r = record { inner = insert rs.name rs r.inner }

-- The loops over `upsert` of `load_from_file`, and over `insert` of `load`.
upsert_all : List RuleSet → RuleResolver → RuleResolver
unfolding upsert
upsert_all [] r = r
upsert_all (rs ∷ sets) r = upsert_all sets (upsert rs r)

abbrev sets_of : RuleSetsFile → List RuleSet
sets_of (single rs) = rs ∷ []
sets_of (many sets) = sets

-- A UTF-8 byte order mark is skipped.
abbrev strip_bom : List ℕ → List ℕ
strip_bom (a ∷ b ∷ c ∷ bytes) =
    if starts_with (a ∷ b ∷ c ∷ []) (0xEF ∷ 0xBB ∷ 0xBF ∷ []) then bytes else a ∷ b ∷ c ∷ bytes
strip_bom bytes = bytes

-- `parse` is `serde_json::from_slice`; the file is its bytes, if it can be read.
unfoldable pub load_from_file :
    (parse : List ℕ → Option RuleSetsFile) → Option (List ℕ) → RuleResolver
unfolding new upsert_all starts_with
load_from_file parse none = new
load_from_file parse (some bytes) = elim (parse (strip_bom bytes)) [
  | none ↦ new
  | some file ↦ upsert_all (sets_of file) new
]

unfoldable pub load : List RuleSet → RuleResolver → RuleResolver
unfolding upsert_all
load sets r = upsert_all sets (record { inner = [] })

-- `remove`, with whether the name was there.
unfoldable pub remove_set : Text → RuleResolver → RuleResolver × Bool
remove_set name r = (record { inner = remove name r.inner }, contains_key name r.inner)

unfoldable pub len : RuleResolver → ℕ
len r = length r.inner

unfoldable pub list : RuleResolver → List RuleSet
list r = sort_by (λ a b. text_le a.name b.name) (values r.inner)

unfoldable pub rule_names : RuleResolver → List Text
rule_names r = sort_by text_le (keys r.inner)

-- `v.iter().min_by_key(|r| r.order)`: the first of the least.
unfoldable pub min_by_order : List Rule → Option Rule
min_by_order [] = none
min_by_order (r ∷ rs) = elim (min_by_order rs) [
  | none ↦ some r
  | some s ↦ if leb r.order s.order then some r else some s
]

-- The rule of a set that serves a request.
unfoldable pub pick_rule : Text → List Rule → Option Rule
unfolding text_eq min_by_order
pick_rule requested v =
    or_else (find (λ r. text_eq r.match_model (text "*")) v)
      (or_else (find (λ r. text_eq r.match_model requested) v) (min_by_order v))

abbrev pub fits : ℕ → Candidate → Bool
fits est c = elim c.max_prompt_tokens [ none ↦ true | some m ↦ leb est m ]

abbrev pub tier_key : Candidate → ℕ
tier_key c = unwrap_or c.max_prompt_tokens (u64_mod - 1)

abbrev pub nonempty : Text → Bool
nonempty t = not (is_nil t)

-- The loops that push the model names.
abbrev pub models_of : List Candidate → List Text
models_of cs = retain nonempty (map (λ c. c.model) cs)

-- The candidates of a rule by its strategy.
unfoldable pub by_strategy : Rule → ℕ → List Text
unfolding text_eq
by_strategy rule est =
    if text_eq rule.strategy (text "fixed")
    then models_of rule.candidates
    else models_of
        (sort_by (λ a b. leb (tier_key a) (tier_key b)) (retain (fits est) rule.candidates))

unfoldable pub resolve : Text → ℕ → RuleResolver → Option Resolution
unfolding pick_rule by_strategy
resolve requested est r = lookup requested r.inner >>= λ set.
    pick_rule requested set.rules >>= λ rule.
    let candidates = by_strategy rule est ++ retain nonempty rule.fallback in
    if is_nil candidates
    then none
    else some (record { rule_set = set.name; candidates = candidates })

unfoldable pub estimate_tokens : Text → ℕ
estimate_tokens t = max (length t / 4) 1
