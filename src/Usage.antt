-- ===== src/Usage.antt =====
-- crates/lan-share/src/usage.rs: tokens counted by member, and for each member by model, provider
-- and rule set, kept in usage.json. Counters are `u64` and wrap, as in a release build.
pub mod Laws
pub mod Dimensions
mod Tests
use aipowergateway.Prelude.{
  ℕ, ◌+◌, Option, none, some, List, [], ◌∷◌, ◌++◌, map, leb, if◌then◌else◌, is_nil, unwrap_or,
  add_u64, concat_map,
}
use aipowergateway.Prelude.Text.{Text, text, decimal}
use aipowergateway.Prelude.Map.{Map, lookup, insert, values}
use aipowergateway.Prelude.Sort.{sort_by}
use aipowergateway.Disk.{Disk}

-- Not built by the service: what a panel row of one model would hold.
pub record ModelUsage : Type 0 where
  pub model : Text
  pub prompt_tokens : ℕ
  pub completion_tokens : ℕ
  pub calls : ℕ

pub record MemberUsage : Type 0 where
  pub member_id : Text
  pub prompt_tokens : ℕ
  pub completion_tokens : ℕ
  pub calls : ℕ
  pub model_tokens : Map ℕ
  pub provider_tokens : Map ℕ
  pub rule_set_tokens : Map ℕ

unfoldable pub total : MemberUsage → ℕ
total u = add_u64 u.prompt_tokens u.completion_tokens

-- `MemberUsage { member_id, ..Default::default() }`
abbrev pub no_usage : Text → MemberUsage
no_usage id = record {
  member_id = id;
  prompt_tokens = 0;
  completion_tokens = 0;
  calls = 0;
  model_tokens = [];
  provider_tokens = [];
  rule_set_tokens = [];
}

-- `*m.entry(k).or_insert(0) += n`
unfoldable pub add_tokens : Text → ℕ → Map ℕ → Map ℕ
add_tokens k n m = insert k (add_u64 (unwrap_or (lookup k m) 0) n) m

pub record UsageService : Type 0 where
  pub by_member : Map MemberUsage
  pub file : Option (Map MemberUsage)

unfoldable pub new : Option (Map MemberUsage) → UsageService
new file = record { by_member = unwrap_or file []; file = file }

unfoldable pub get : Text → UsageService → Option MemberUsage
get id s = lookup id s.by_member

unfoldable pub save : Disk (Map MemberUsage) → UsageService → UsageService
save disk s = record s { file = disk.stored s.file s.by_member }

-- The writes of `record` to the member's entry.
unfoldable pub count_call : Text → Text → ℕ → ℕ → MemberUsage → MemberUsage
unfolding add_tokens
count_call provider model prompt completion u = record u {
  prompt_tokens = add_u64 u.prompt_tokens prompt;
  completion_tokens = add_u64 u.completion_tokens completion;
  calls = add_u64 u.calls 1;
  model_tokens =
      if is_nil model
      then u.model_tokens
      else add_tokens model (add_u64 prompt completion) u.model_tokens;
  provider_tokens =
      if is_nil provider
      then u.provider_tokens
      else add_tokens provider (add_u64 prompt completion) u.provider_tokens;
}

-- `record`
unfoldable pub record_call :
    Disk (Map MemberUsage) → Text → Text → Text → ℕ → ℕ → UsageService → UsageService
unfolding save count_call
record_call disk id provider model prompt completion s =
    let old = unwrap_or (lookup id s.by_member) (no_usage id) in
    save disk (record s {
      by_member = insert id (count_call provider model prompt completion old) s.by_member;
    })

unfoldable pub record_rule : Disk (Map MemberUsage) → Text → Text → ℕ → UsageService → UsageService
unfolding save add_tokens
record_rule disk id rule_set tokens s =
    let old = unwrap_or (lookup id s.by_member) (no_usage id) in
    if is_nil rule_set
    then s
    else save disk (record s {
      by_member =
          insert id
            (record old { rule_set_tokens = add_tokens rule_set tokens old.rule_set_tokens })
            s.by_member;
    })

-- `all`, the largest total first.
unfoldable pub all : UsageService → List MemberUsage
unfolding total
all s = sort_by (λ a b. leb (total b) (total a)) (values s.by_member)

abbrev comma : Text
comma = text ","

unfoldable pub csv_line : MemberUsage → Text
unfolding total decimal
csv_line u =
    u.member_id
    ++ (comma
        ++ (decimal u.prompt_tokens
            ++ (comma
                ++ (decimal u.completion_tokens
                    ++ (comma
                        ++ (decimal (total u) ++ (comma ++ (decimal u.calls ++ text "\n"))))))))

unfoldable pub export_csv : UsageService → Text
unfolding all csv_line
export_csv s =
    text "member_id,prompt_tokens,completion_tokens,total_tokens,calls\n"
    ++ concat_map csv_line (all s)
