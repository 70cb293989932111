-- ===== src/Policy/Tests.antt =====
-- Runs of the screening after the tests of the source, and its laws at such inputs. The lower case of
-- these runs is that of ASCII.
use aipowergateway.Prelude.{
  ◌≡◌, refl, ◌↔◌, ◌+◌, true, ◌&&◌, none, some, [], ◌∷◌, ◌++◌, arith, if◌then◌else◌, leb, is_some,
}
use aipowergateway.Prelude.Text.{Text, text, contains}
use aipowergateway.Json.{Value, str, obj, Fields, get_field}
use aipowergateway.Policy.{
  mining, LoadPolicy, detect, scan_rules, policy_rules, extract_request_text, request_parts,
  content_parts,
}
use aipowergateway.Policy.Detect.{IsLinewise}
use aipowergateway.Policy.Request.{Carries, result_body, detect-extract_request_text}

abbrev ascii_lower : Text → Text
ascii_lower [] = []
ascii_lower (c ∷ t) = (if leb 65 c && leb c 90 then c + 32 else c) ∷ ascii_lower t

ascii_lower-append : (a b : Text) → ascii_lower (a ++ b) ≡ ascii_lower a ++ ascii_lower b
ascii_lower-append [] b = refl
ascii_lower-append (c ∷ a) b = ground (arith, ascii_lower-append a b)

ascii_lower-IsLinewise : IsLinewise ascii_lower
ascii_lower-IsLinewise = record { empty = refl; lines = λ a b. ascii_lower-append a (10 ∷ b) }

abbrev body : Value
body = obj (Fields.field (text "system") (str (text "Start XMRig now")) Fields.end)

detect_run :
    (detect ascii_lower (text "Start XMRig now") ≡ some mining)
    × (detect ascii_lower (text "write a poem") ≡ none)
    × (extract_request_text body ≡ text "Start XMRig now")
unfolding detect scan_rules policy_rules contains extract_request_text request_parts content_parts
    get_field
detect_run = (refl, refl, refl)

abbrev policy : LoadPolicy
policy = record { enabled = true; file = none; mining_hits = 0; deepfake_hits = 0 }

detect-extract_request_text_example :
    ((is_some (detect ascii_lower (extract_request_text body)) ≡ true)
      ↔ ((t : Text) × Carries body t × (is_some (detect ascii_lower t) ≡ true)))
    × ((content : Value) → detect ascii_lower (extract_request_text (result_body content)) ≡ none)
detect-extract_request_text_example =
    detect-extract_request_text ascii_lower body ascii_lower-IsLinewise
