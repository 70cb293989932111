-- ===== src/Quota.antt =====
-- crates/lan-share/src/quota.rs: a token limit for each member, kept in quota.json.
pub mod Laws
mod Tests
use aipowergateway.Prelude.{
  ℕ, Bool, ◌&&◌, Option, none, some, List, [], ◌∷◌, map, ltb, leb, ◌==◌, if◌then◌else◌, unwrap_or,
  Result, ok, err,
}
use aipowergateway.Prelude.Text.{Text, text_le}
use aipowergateway.Prelude.Map.{Map, lookup, insert, remove}
use aipowergateway.Prelude.Sort.{sort_by}
use aipowergateway.Disk.{Disk}

pub record QuotaExceeded : Type 0 where
  pub limit : ℕ

pub record MemberQuota : Type 0 where
  pub member_id : Text
  pub limit : ℕ

-- `file` is the content at `persist_path`.
pub record QuotaService : Type 0 where
  pub quotas : Map ℕ
  pub file : Option (Map ℕ)

abbrev pub quota_entry : Text × ℕ → MemberQuota
quota_entry (id, limit) = record { member_id = id; limit = limit }

-- `new` and `load`: what the file holds, or nothing.
unfoldable pub new : Option (Map ℕ) → QuotaService
new file = record { quotas = unwrap_or file []; file = file }

unfoldable pub save : Disk (Map ℕ) → QuotaService → QuotaService
save disk q = record q { file = disk.stored q.file q.quotas }

-- The map is changed under the lock, then saved.
unfoldable pub set : Disk (Map ℕ) → Text → ℕ → QuotaService → QuotaService
unfolding save
set disk id limit q =
    save disk
      (record q { quotas = if limit == 0 then remove id q.quotas else insert id limit q.quotas })

unfoldable pub get : Text → QuotaService → Option ℕ
get id q = lookup id q.quotas

-- `all`, by member name.
unfoldable pub all : QuotaService → List MemberQuota
all q = sort_by (λ a b. text_le a.member_id b.member_id) (map quota_entry q.quotas)

-- A limit of 0 never refuses, though `set` never stores one: the file may.
unfoldable pub check : Text → ℕ → QuotaService → Result (Unit {0}) QuotaExceeded
check id used q = elim (lookup id q.quotas) [
  | none ↦ ok tt
  | some limit ↦ if ltb 0 limit && leb limit used then err (record { limit = limit }) else ok tt
]
