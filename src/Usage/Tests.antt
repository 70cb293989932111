-- ===== src/Usage/Tests.antt =====
-- Runs of the usage service after the tests of the source, and its laws at such inputs.
use aipowergateway.Prelude.{◌%◌, ◌≡◌, refl, none, List, [], ◌∷◌, u64_mod}
use aipowergateway.Prelude.Text.{Text, text}
use aipowergateway.Prelude.Map.{lookup, insert}
use aipowergateway.Prelude.Sort.{sort_by}
use aipowergateway.Disk.{working_disk}
use aipowergateway.Usage.{UsageService, new, export_csv, record_call, record_rule}
use aipowergateway.Usage.Laws.{
  Event, call, rule_hit, used, reported, report_all, sum_of, used-report_all-new,
}
use aipowergateway.Usage.Dimensions.{at, entry_of}

abbrev pc1 : Text
pc1 = text "pc-1"

abbrev events : List Event
events =
    call pc1 (text "deepseek") (text "moonshot-v1-8k") 10 20
    ∷ rule_hit pc1 (text "default-cost") 30
    ∷ call pc1 (text "deepseek") (text "moonshot-v1-32k") 100 50
    ∷ rule_hit pc1 (text "default-cost") 150
    ∷ rule_hit pc1 [] 999
    ∷ rule_hit (text "pc-2") (text "premium") 5
    ∷ []

abbrev served : UsageService
served = report_all working_disk events (new none)

rule_set_dimension_tracked :
    (used pc1 served ≡ 180)
    × (at (text "default-cost") (entry_of pc1 served).rule_set_tokens ≡ 180)
    × (at (text "premium") (entry_of (text "pc-2") served).rule_set_tokens ≡ 5)
    × (at (text "moonshot-v1-8k") (entry_of pc1 served).model_tokens ≡ 30)
    × (at (text "deepseek") (entry_of pc1 served).provider_tokens ≡ 180)
unfolding report_all used new lookup insert entry_of record_rule record_call
rule_set_dimension_tracked = (refl, refl, refl, refl, refl)

export_csv_format :
    export_csv (report_all working_disk (call pc1 (text "pair") (text "m") 10 20 ∷ []) (new none))
    ≡ text "member_id,prompt_tokens,completion_tokens,total_tokens,calls\npc-1,10,20,30,1\n"
unfolding export_csv report_all new lookup insert sort_by record_call
export_csv_format = refl

used-report_all-new_example :
    used pc1 (report_all working_disk events (new none)) ≡ sum_of (reported pc1) events % u64_mod
used-report_all-new_example = used-report_all-new working_disk pc1 events
