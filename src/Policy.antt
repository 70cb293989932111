-- ===== src/Policy.antt =====
-- crates/lan-share/src/policy.rs: requests are screened for forbidden terms. `to_lowercase` is the
-- Unicode table of the standard library and enters as an argument `lower`.
mod Terms
pub mod Detect
pub mod Request
pub mod Count
mod Tests
pub use Terms.{PolicyCategory, mining, deepfake, PolicyRule}
unfoldable pub use Terms.{category_as_str, policy_rules}
use aipowergateway.Prelude.{
  ℕ, Bool, true, false, ◌||◌, Option, none, some, List, [], ◌∷◌, ◌++◌, if◌then◌else◌, is_nil,
  add_u64, filter_map, concat_map, ◌>>=◌, unwrap_or, any,
}
use aipowergateway.Prelude.Text.{Text, text, contains, join}
use aipowergateway.Json.{Value, str, arr, elems, get, get_str, get_array}
use aipowergateway.Disk.{Disk}

-- The loops of `detect`, over a text in lower case.
unfoldable pub scan_rules : List PolicyRule → Text → Option PolicyCategory
unfolding contains
scan_rules [] lower_text = none
scan_rules (rule ∷ rules) lower_text =
    if any (contains lower_text) rule.terms then some rule.category else scan_rules rules lower_text

unfoldable pub detect : (Text → Text) → Text → Option PolicyCategory
unfolding scan_rules policy_rules
detect lower t = if is_nil t then none else scan_rules policy_rules (lower t)

-- A string, or the texts of an array of blocks.
unfoldable pub content_parts : Option Value → List Text
content_parts none = []
content_parts (some (str s)) = s ∷ []
content_parts (some (arr blocks)) = filter_map (get_str (text "text")) (elems blocks)
content_parts (some _) = []

abbrev option_list : Option Text → List Text
option_list none = []
option_list (some t) = t ∷ []

unfoldable pub tool_parts : Value → List Text
tool_parts t =
    option_list (get_str (text "description") t)
    ++ option_list (get (text "function") t >>= get_str (text "description"))

-- What `extract_request_text` collects, in its order.
unfoldable pub request_parts : Value → List Text
unfolding content_parts tool_parts
request_parts body =
    content_parts (get (text "system") body)
    ++ (concat_map (λ m. content_parts (get (text "content") m))
          (unwrap_or (get_array (text "messages") body) [])
        ++ concat_map tool_parts (unwrap_or (get_array (text "tools") body) []))

unfoldable pub extract_request_text : Value → Text
unfolding request_parts join
extract_request_text body = join (text "\n") (request_parts body)

-- `file` is what load-policy.json holds; the counters are `AtomicU64`, which wrap.
pub record LoadPolicy : Type 0 where
  pub enabled : Bool
  pub file : Option Bool
  pub mining_hits : ℕ
  pub deepfake_hits : ℕ

unfoldable pub new : Option Bool → LoadPolicy
new file = record { enabled = unwrap_or file true; file = file; mining_hits = 0; deepfake_hits = 0 }

unfoldable pub set_enabled : Disk Bool → Bool → LoadPolicy → LoadPolicy
set_enabled disk on p = record p { enabled = on; file = disk.stored p.file on }

unfoldable pub hits : LoadPolicy → ℕ × ℕ
hits p = (p.mining_hits, p.deepfake_hits)

abbrev pub count_hit : PolicyCategory → LoadPolicy → LoadPolicy
count_hit mining p = record p { mining_hits = add_u64 p.mining_hits 1 }
count_hit deepfake p = record p { deepfake_hits = add_u64 p.deepfake_hits 1 }

unfoldable pub check : (Text → Text) → Text → LoadPolicy → Option PolicyCategory × LoadPolicy
unfolding detect
check lower t p =
    if p.enabled
    then elim (detect lower t) [ none ↦ (none, p) | some cat ↦ (some cat, count_hit cat p) ]
    else (none, p)
