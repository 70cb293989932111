-- ===== src/Link/Usage.antt =====
-- crates/lan-client/src/usage_view.rs and identity.rs: what a member's machine keeps of itself.
pub mod Balance
use aipowergateway.Prelude.{
  ℕ, Bool, true, false, Option, none, some, List, [], ◌∷◌, add_u64, unwrap_or, Result, ok, err,
}
use aipowergateway.Prelude.Text.{Text}
use aipowergateway.Prelude.Map.{Map, lookup, insert}
use aipowergateway.Disk.{Disk, Backing, save_to, load_from}

-- The counters are `u64`, which wrap.
pub record PersonalUsage : Type 0 where
  pub prompt_tokens : ℕ
  pub completion_tokens : ℕ
  pub calls : ℕ
  pub leaders : Map ℕ

abbrev pub default : PersonalUsage
default = record { prompt_tokens = 0; completion_tokens = 0; calls = 0; leaders = [] }

unfoldable pub total : PersonalUsage → ℕ
total u = add_u64 u.prompt_tokens u.completion_tokens

unfoldable pub record_usage : Text → ℕ → ℕ → PersonalUsage → PersonalUsage
unfolding lookup insert
record_usage leader prompt completion u = record {
  prompt_tokens = add_u64 u.prompt_tokens prompt;
  completion_tokens = add_u64 u.completion_tokens completion;
  calls = add_u64 u.calls 1;
  leaders =
      insert leader (add_u64 (unwrap_or (lookup leader u.leaders) 0) (add_u64 prompt completion))
        u.leaders;
}

pub record UsageView : Type 0 where
  pub inner : PersonalUsage
  pub file : Backing PersonalUsage

unfoldable pub new : Backing PersonalUsage → UsageView
new file = record { inner = unwrap_or (load_from file) default; file = file }

unfoldable pub record_view : Disk PersonalUsage → Text → ℕ → ℕ → UsageView → UsageView
unfolding record_usage
record_view disk leader prompt completion v =
    let inner = record_usage leader prompt completion v.inner in
    record { inner = inner; file = save_to disk inner v.file }

-- The machine's name, and the name that is shown.
pub record Identity : Type 0 where
  pub machine_name : Text
  pub display_name : Text

unfoldable pub new_identity : Text → Identity
new_identity name = record { machine_name = name; display_name = name }

unfoldable pub rename : Text → Identity → Identity
rename shown i = record i { display_name = shown }

-- The file under the path: none is there, its reading fails, or what serde makes of its bytes.
pub data IdentityFile : Type 0 where
  absent : IdentityFile
  unreadable : Text → IdentityFile
  content : Option Identity → IdentityFile

unfoldable pub load_or_create : IdentityFile → Text → Result Identity Text
unfolding new_identity
load_or_create absent name = ok (new_identity name)
load_or_create (unreadable e) name = err e
load_or_create (content i) name = ok (unwrap_or i (new_identity name))
