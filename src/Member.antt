-- ===== src/Member.antt =====
-- crates/lan-share/src/member.rs: the members by machine name, with heartbeats. The clock is an
-- argument `now` of every operation that reads it.
pub mod Laws
mod Tests
use aipowergateway.Prelude.{
  ℕ, ◌-◌, Bool, true, false, ◌&&◌, Option, none, some, List, [], ◌∷◌, map, ltb, leb, if◌then◌else◌,
  is_nil, is_some, unwrap_or,
}
use aipowergateway.Prelude.Text.{Text}
use aipowergateway.Prelude.Map.{Map, lookup, insert, modify, values}
use aipowergateway.Prelude.Sort.{sort_by}

pub record Member : Type 0 where
  pub member_id : Text
  pub machine_name : Text
  pub ip : Text
  pub gateway_id : Text
  pub display_name : Text
  pub last_seen : ℕ
  pub joined_at : ℕ
  pub online : Bool

-- `saturating_sub` is the subtraction of ℕ.
unfoldable pub is_online : ℕ → ℕ → Member → Bool
is_online now timeout m = m.online && leb (now - m.last_seen) timeout

pub record MemberRegistry : Type 0 where
  pub inner : Map Member
  pub timeout_secs : ℕ
  pub gateway_id : Text

unfoldable pub new : ℕ → Text → MemberRegistry
new timeout gateway = record { inner = []; timeout_secs = timeout; gateway_id = gateway }

-- The entry that `or_insert_with` makes.
abbrev pub joining : ℕ → Text → Text → Text → Text → Member
joining now gateway machine display ip = record {
  member_id = machine;
  machine_name = machine;
  ip = ip;
  gateway_id = gateway;
  display_name = if is_nil display then machine else display;
  last_seen = now;
  joined_at = now;
  online = true;
}

-- The writes to the entry, new or old.
abbrev pub touch : ℕ → Text → Text → Member → Member
touch now display ip m = record m {
  ip = if is_nil ip then m.ip else ip;
  display_name = if is_nil display then m.display_name else display;
  last_seen = now;
  online = true;
}

unfoldable pub upsert : ℕ → Text → Text → Text → MemberRegistry → MemberRegistry × Member
upsert now machine display ip r =
    let old = unwrap_or (lookup machine r.inner) (joining now r.gateway_id machine display ip) in
    let m = touch now display ip old in (record r { inner = insert machine m r.inner }, m)

unfoldable pub rename : Text → Text → MemberRegistry → MemberRegistry × Bool
rename machine display r =
    if is_some (lookup machine r.inner)
    then (
      record r { inner = modify machine (λ m. record m { display_name = display }) r.inner },
      true,
    )
    else (r, false)

unfoldable pub mark_offline : Text → MemberRegistry → MemberRegistry
mark_offline machine r = record r {
  inner = modify machine (λ m. record m { online = false }) r.inner;
}

abbrev pub expire : ℕ → ℕ → Text × Member → Text × Member
expire now timeout (k, m) =
    (k, if ltb timeout (now - m.last_seen) then record m { online = false } else m)

unfoldable pub sweep : ℕ → MemberRegistry → MemberRegistry
sweep now r = record r { inner = map (expire now r.timeout_secs) r.inner }

-- A member as `all` shows it.
abbrev pub shown : ℕ → ℕ → Member → Member
shown now timeout m = record m { online = is_online now timeout m }

-- In the order of joining.
unfoldable pub all : ℕ → MemberRegistry → List Member
unfolding is_online
all now r =
    sort_by (λ a b. leb a.joined_at b.joined_at) (map (shown now r.timeout_secs) (values r.inner))
