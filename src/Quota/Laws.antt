-- ===== src/Quota/Laws.antt =====
-- What the quota service promises: a member is refused exactly from its limit on, a write changes
-- one member's limit and reaches the file.
use aipowergateway.Prelude.{
  ℕ, ◌≡◌, ◌≤◌, ◌<◌, ◌↔◌, none, some, arith, ◌==◌, if◌then◌else◌, Bool-cases, inl, inr, err,
}
use aipowergateway.Prelude.Text.{Text, text_eq, text_le, text_le_total, text_le_trans}
use aipowergateway.Prelude.Map.{Map, insert, remove, lookup-insert, lookup-remove}
use aipowergateway.Prelude.Sort.{IsSorted, sort_by-IsSorted}
use aipowergateway.Disk.{Disk, IsReliable}
use aipowergateway.Quota.{QuotaService, new, set, get, all, check}

-- A check refuses exactly when the member has a limit above 0 that its use has reached, and the
-- refusal names that limit.
pub check-eq-err_iff :
    (id : Text) (used limit : ℕ) (q : QuotaService)
    → (check id used q ≡ err (record { limit = limit }))
      ↔ ((get id q ≡ some limit) × (0 < limit) × (limit ≤ used))
unfolding check get
check-eq-err_iff id used limit q = (λ h. ground arith, λ h. ground arith)

-- Setting a limit changes what is found for that member alone: 0 takes the limit away, any other
-- value is the new limit.
get-set :
    (disk : Disk (Map ℕ)) (id j : Text) (limit : ℕ) (q : QuotaService)
    → get j (set disk id limit q)
      ≡ (if text_eq id j then (if limit == 0 then none else some limit) else get j q)
unfolding get set
get-set disk id j limit q = elim (Bool-cases (limit == 0)) [
  | inl zero_limit ↦ rw (zero_limit, lookup-remove id j q.quotas)
  | inr some_limit ↦ rw (some_limit, lookup-insert id j limit q.quotas)
]

-- A restart after a change that the disk takes finds the new limit of that member, and every other
-- member's limit as it was.
get-new-set :
    (disk : Disk (Map ℕ))
    → IsReliable disk
    → (id j : Text) (limit : ℕ) (q : QuotaService)
    → get j (new (set disk id limit q).file)
      ≡ (if text_eq id j then (if limit == 0 then none else some limit) else get j q)
unfolding get set new
get-new-set disk r id j limit q =
    rw (r q.file (if limit == 0 then remove id q.quotas else insert id limit q.quotas))
      (unfold get set in get-set disk id j limit q)

-- The list of quotas is in the order of the member names.
quotas-IsSorted : (q : QuotaService) → IsSorted (λ a b. text_le a.member_id b.member_id) (all q)
unfolding all
quotas-IsSorted q =
    sort_by-IsSorted (λ a b. text_le a.member_id b.member_id)
      (λ a b. text_le_total a.member_id b.member_id)
      (λ a b c. text_le_trans a.member_id b.member_id c.member_id) _
