-- ===== src/Auth.antt =====
-- crates/lan-share/src/auth.rs: tokens for members, reused while they are valid, and the ban lists.
-- The clock is an argument `now`, and the random bytes of a token are an argument `bytes`.
pub mod Issue
pub mod Ban
pub mod Restart
mod Tests
use Prim.Native.Nat.{◌/◌, ◌%◌}
use aipowergateway.Prelude.{
  ℕ, ◌+◌, ◌-◌, Bool, true, false, not, ◌&&◌, ◌||◌, Option, none, some, List, [], ◌∷◌, ◌++◌, map,
  ltb, ◌==◌, if◌then◌else◌, is_nil, find, retain, add_u64, u64_mod, Result, ok, err, concat_map,
  ◌>>=◌, length,
}
use aipowergateway.Prelude.Text.{Text, text_eq, text_le}
use aipowergateway.Prelude.Map.{Map, lookup, insert, values}
use aipowergateway.Prelude.Sort.{sort_by}
use aipowergateway.Prelude.TextSet.{TextSet, has, add, delete}
use aipowergateway.Disk.{Disk, Backing, unsaved, at_path, save_to, load_from}

pub record Session : Type 0 where
  pub token : Text
  pub member_id : Text
  pub machine_name : Text
  pub display_name : Text
  pub expires_at : ℕ
  pub issued_at : ℕ

-- The two files: the ban lists, and the sessions.
pub record BannedState : Type 0 where
  pub members : List Text
  pub ips : List Text

pub record AuthService : Type 0 where
  pub sessions : Map Session
  pub banned : TextSet
  pub banned_ips : TextSet
  pub ttl_secs : ℕ
  pub ban_file : Backing BannedState
  pub sessions_file : Backing (List Session)

-- `RuntimeError::Auth("banned")`, the one error of the service.
pub data AuthError : Type 0 where
  banned : AuthError

-- `{:02x}` of a byte.
abbrev hex_digit : ℕ → ℕ
hex_digit n = if ltb n 10 then b'0' + n else b'a' + (n - 10)

-- The token for 32 random bytes.
unfoldable pub gen_token : List ℕ → Text
gen_token bytes = concat_map (λ b. hex_digit (b / 16) ∷ hex_digit (b % 16) ∷ []) bytes

unfoldable pub is_member_banned : Text → AuthService → Bool
is_member_banned id s = has id s.banned

unfoldable pub is_banned : Text → AuthService → Bool
is_banned ip s = has ip s.banned_ips

unfoldable pub session_count : AuthService → ℕ
session_count s = length s.sessions

-- A session of the member that has not expired.
abbrev pub is_live : ℕ → Text → Session → Bool
is_live now machine x = text_eq x.member_id machine && ltb now x.expires_at

abbrev pub fresh_session : ℕ → ℕ → List ℕ → Text → Text → Session
fresh_session ttl now bytes machine display = record {
  token = gen_token bytes;
  member_id = machine;
  machine_name = machine;
  display_name = if is_nil display then machine else display;
  expires_at = if ttl == 0 then u64_mod - 1 else add_u64 now ttl;
  issued_at = now;
}

module _ (ban_disk : Disk BannedState) (sessions_disk : Disk (List Session)) where
  -- `save`
  unfoldable pub save_bans : AuthService → AuthService
  save_bans s =
      let state : BannedState = record {
        members = sort_by text_le s.banned;
        ips = sort_by text_le s.banned_ips;
      } in
      record s { ban_file = save_to ban_disk state s.ban_file }

  unfoldable pub save_sessions : AuthService → AuthService
  save_sessions s = record s {
    sessions_file = save_to sessions_disk (values s.sessions) s.sessions_file;
  }

  unfoldable pub issue :
      ℕ → List ℕ → Text → Text → Text → AuthService → Result Session AuthError × AuthService
  unfolding save_sessions is_banned is_member_banned
  issue now bytes machine display ip s = elim (find (is_live now machine) (values s.sessions)) [
    | some existing ↦ (ok existing, s)
    | none ↦
        if is_banned ip s || is_member_banned machine s
        then (err AuthError.banned, s)
        else (let x : Session = fresh_session s.ttl_secs now bytes machine display in
            (ok x, save_sessions (record s { sessions = insert x.token x s.sessions })))
  ]

  unfoldable pub rotate :
      ℕ → List ℕ → Text → Text → Text → AuthService → Result Session AuthError × AuthService
  unfolding save_sessions issue
  rotate now bytes machine display ip s = issue now bytes machine display ip (
      save_sessions
        (record s { sessions = retain (λ e. not (text_eq e.1.member_id machine)) s.sessions }))

  unfoldable pub revoke_member : Text → Text → AuthService → AuthService
  unfolding save_bans save_sessions
  revoke_member id ip s = save_sessions (
      save_bans (record s {
        banned = add id s.banned;
        banned_ips = if is_nil ip then s.banned_ips else add ip s.banned_ips;
      }))

  unfoldable pub unban : Text → Text → AuthService → AuthService
  unfolding save_bans
  unban id ip s = save_bans (record s {
    banned = delete id s.banned;
    banned_ips = if is_nil ip then s.banned_ips else delete ip s.banned_ips;
  })

unfoldable pub verify : ℕ → Text → AuthService → Option Session
unfolding is_member_banned
verify now token s = lookup token s.sessions >>= λ x.
    if ltb x.expires_at now then none else if is_member_banned x.member_id s then none else some x

-- `lookup`: without the ban list.
unfoldable pub lookup_session : ℕ → Text → AuthService → Option Session
lookup_session now token s =
    lookup token s.sessions >>= λ x. if ltb x.expires_at now then none else some x

-- The loop of `load_sessions`.
unfoldable pub restore : ℕ → List Session → Map Session → Map Session
restore now [] m = m
restore now (x ∷ xs) m = restore now xs (if ltb now x.expires_at then insert x.token x m else m)

-- `members.into_iter().collect()` into a set.
unfoldable pub collect : List Text → TextSet
collect [] = []
collect (t ∷ ts) = add t (collect ts)

unfoldable pub load : AuthService → AuthService
unfolding collect
load s = elim (load_from s.ban_file) [
  | none ↦ s
  | some state ↦ record s { banned = collect state.members; banned_ips = collect state.ips }
]

unfoldable pub load_sessions : ℕ → AuthService → AuthService
unfolding restore
load_sessions now s = elim (load_from s.sessions_file) [
  | none ↦ s
  | some sessions ↦ record s { sessions = restore now sessions s.sessions }
]

unfoldable pub new_with_store : ℕ → ℕ → Backing BannedState → Backing (List Session) → AuthService
unfolding load load_sessions
new_with_store now ttl ban_file sessions_file = load_sessions now (
    load (record {
      sessions = [];
      banned = [];
      banned_ips = [];
      ttl_secs = ttl;
      ban_file = ban_file;
      sessions_file = sessions_file;
    }))

-- `AuthService::new`: sessions are not kept on disk.
unfoldable pub new : ℕ → ℕ → Backing BannedState → AuthService
unfolding new_with_store
new now ttl ban_file = new_with_store now ttl ban_file unsaved
