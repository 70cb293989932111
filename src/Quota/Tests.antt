-- ===== src/Quota/Tests.antt =====
-- Runs of the quota service after the tests of the source, and its laws at such inputs.
use aipowergateway.Prelude.{◌≡◌, refl, ◌↔◌, ◌<◌, ◌≤◌, none, some, [], ◌∷◌, ok, err}
use aipowergateway.Prelude.Text.{text, text_le}
use aipowergateway.Prelude.Map.{lookup, insert, remove}
use aipowergateway.Prelude.Sort.{sort_by}
use aipowergateway.Disk.{working_disk}
use aipowergateway.Quota.{QuotaService, new, set, get, all, check}
use aipowergateway.Quota.Laws.{check-eq-err_iff}

abbrev two_members : QuotaService
two_members = record { quotas = (text "pc-2", 100) ∷ (text "pc-1", 200) ∷ []; file = none }

all_lists_sorted :
    all two_members
    ≡ record { member_id = text "pc-1"; limit = 200 }
      ∷ record { member_id = text "pc-2"; limit = 100 }
      ∷ []
unfolding all sort_by text_le
all_lists_sorted = refl

set-get_and_check :
    let q = set working_disk (text "pc-1") 1000 (new none) in
    (get (text "pc-1") q ≡ some 1000)
    × (check (text "pc-1") 999 q ≡ ok tt)
    × (check (text "pc-1") 1000 q ≡ err (record { limit = 1000 }))
    × (check (text "pc-2") 999999 q ≡ ok tt)
    × (get (text "pc-1") (set working_disk (text "pc-1") 0 q) ≡ none)
unfolding set new get check lookup insert remove
set-get_and_check = (refl, refl, refl, refl, refl)

check-eq-err_iff_example :
    (check (text "pc-2") 150 two_members ≡ err (record { limit = 100 }))
    ↔ ((get (text "pc-2") two_members ≡ some 100) × (0 < 100) × (100 ≤ 150))
check-eq-err_iff_example = check-eq-err_iff (text "pc-2") 150 100 two_members
