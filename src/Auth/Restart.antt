-- ===== src/Auth/Restart.antt =====
-- A restart of the gateway reads the bans and the sessions back.
use aipowergateway.Prelude.{
  ℕ, ◌≡◌, refl, sym, ◌∙◌, ◌<◌, ◌↔◌, Bool, true, false, ◌||◌, Option, none, some, List, [], ◌∷◌,
  arith, if◌then◌else◌, Bool-cases, Option-cases, inl, inr, ◌>>=◌, Any, ltb, is_nil, find,
}
use aipowergateway.Prelude.Text.{Text, text_eq, text_eq_iff, text_le}
use aipowergateway.Prelude.Map.{Map, lookup, insert, values, lookup-insert, HasUniqueKeys}
use aipowergateway.Prelude.Sort.{sort_by, Any-sort_by}
use aipowergateway.Prelude.TextSet.{TextSet, has, add, has-add}
use aipowergateway.Disk.{Disk, IsReliable, load_from, load_from-save_to}
use aipowergateway.Auth.{
  Session, AuthService, BannedState, issue, rotate, revoke_member, unban, verify, restore, collect,
  new_with_store, save_sessions, save_bans, is_member_banned, is_banned, is_live,
}
use aipowergateway.Auth.Issue.{IsValid, IsKeyed, issue-IsValid, rotate-IsValid}

has_iff : (t : Text) (s : TextSet) → (has t s ≡ true) ↔ Any (λ u. text_eq u t ≡ true) s
unfolding has
has_iff t [] = (λ h. cc, λ h. absurd h)
has_iff t (u ∷ s) =
    let (to, from) = has_iff t s in
    (
      λ h. elim (Bool-cases (text_eq u t)) [ inl e ↦ inl e | inr e ↦ inr (to (ground arith)) ],
      λ h. elim h [ inl e ↦ ground arith | inr m ↦ let k = from m in ground arith ],
    )

has-collect : (t : Text) (xs : List Text) → has t (collect xs) ≡ has t xs
unfolding has collect
has-collect t [] = refl
has-collect t (u ∷ xs) = rw (has-add u t (collect xs)) (ground (arith, has-collect t xs))

bool_ext : (a b : Bool) → (a ≡ true) ↔ (b ≡ true) → a ≡ b
bool_ext true b h = sym (h.0 refl)
bool_ext false true h = h.1 refl
bool_ext false false h = refl

-- Sorting a set for the file and collecting it again loses nothing.
has-collect-sort_by : (t : Text) (s : TextSet) → has t (collect (sort_by text_le s)) ≡ has t s
has-collect-sort_by t s =
    let (to, from) = Any-sort_by text_le (λ u. text_eq u t ≡ true) s in
    has-collect t (sort_by text_le s)
    ∙ bool_ext _ _ (
      λ h. (has_iff t s).1 (to ((has_iff t (sort_by text_le s)).0 h)),
      λ h. (has_iff t (sort_by text_le s)).1 (from ((has_iff t s).0 h)),
    )

-- What a restart at `now` finds under a token: the session, if it has not expired.
abbrev pub unexpired : ℕ → Option Session → Option Session
unexpired now o = o >>= λ x. if ltb now x.expires_at then some x else none

abbrev pub or_before : Option Session → Option Session → Option Session
or_before none before = before
or_before (some x) before = some x

lookup-restore :
    (now : ℕ) (token : Text) (m acc : Map Session)
    → HasUniqueKeys m
    → IsKeyed m
    → lookup token (restore now (values m) acc)
      ≡ or_before (unexpired now (lookup token m)) (lookup token acc)
unfolding lookup restore
lookup-restore now token [] acc u k = refl
lookup-restore now token ((j, x) ∷ m) acc u k =
    rw
      (lookup-restore now token m (if ltb now x.expires_at then insert x.token x acc else acc) u.1
        k.1)
      (ground
        (arith, lookup-insert x.token token x acc, text_eq_iff x.token token, text_eq_iff j token))

-- The two files hold what the service holds.
pub record IsSaved (s : AuthService) : Type 0 where
  pub bans :
      load_from s.ban_file
      ≡ some (record { members = sort_by text_le s.banned; ips = sort_by text_le s.banned_ips })
  pub tokens : load_from s.sessions_file ≡ some (values s.sessions)

sessions-new_with_store :
    (now ttl : ℕ) (s : AuthService)
    → IsSaved s
    → (new_with_store now ttl s.ban_file s.sessions_file).sessions
      ≡ restore now (values s.sessions) []
unfolding new_with_store
sessions-new_with_store now ttl s saved = ground arith

banned-new_with_store :
    (now ttl : ℕ) (s : AuthService)
    → IsSaved s
    → (new_with_store now ttl s.ban_file s.sessions_file).banned
      ≡ collect (sort_by text_le s.banned)
unfolding new_with_store
banned-new_with_store now ttl s saved = ground arith

-- Where both files are up to date, a restart changes the answer for no token at any later second:
-- bans and unexpired sessions survive it.
pub verify-new_with_store :
    (now later ttl : ℕ) (token : Text) (s : AuthService)
    → IsValid s
    → IsSaved s
    → now < later
    → verify later token (new_with_store now ttl s.ban_file s.sessions_file) ≡ verify later token s
unfolding verify lookup
verify-new_with_store now later ttl token s valid saved before =
    rw (sessions-new_with_store now ttl s saved, banned-new_with_store now ttl s saved, verify)
      (rw (lookup-restore now token s.sessions [] valid.unique valid.keyed)
        (elim (Option-cases (lookup token s.sessions)) [
          | inl missing ↦ rw missing
          | inr (x, found) ↦ rw found (ground (arith, has-collect-sort_by x.member_id s.banned))
        ]))

-- The operations that change a service, with what each is given.
pub data Op : Type 0 where
  issuing rotating : ℕ → List ℕ → Text → Text → Text → Op
  banning lifting : Text → Text → Op

module _ (ban_disk : Disk BannedState) (sessions_disk : Disk (List Session)) where
  unfoldable pub apply : Op → AuthService → AuthService
  apply (issuing now bytes machine display ip) s =
      (issue ban_disk sessions_disk now bytes machine display ip s).1
  apply (rotating now bytes machine display ip) s =
      (rotate ban_disk sessions_disk now bytes machine display ip s).1
  apply (banning id ip) s = revoke_member ban_disk sessions_disk id ip s
  apply (lifting id ip) s = unban ban_disk sessions_disk id ip s

  module _ (bans_kept : IsReliable ban_disk) (sessions_kept : IsReliable sessions_disk) where
    save_sessions-IsSaved :
        (s : AuthService) (old : List Session)
        → load_from s.ban_file
          ≡ some (record { members = sort_by text_le s.banned; ips = sort_by text_le s.banned_ips })
        → load_from s.sessions_file ≡ some old
        → IsSaved (save_sessions ban_disk sessions_disk s)
    unfolding save_sessions
    save_sessions-IsSaved s old bans tokens = record {
      bans = bans;
      tokens = load_from-save_to sessions_disk _ old s.sessions_file sessions_kept tokens;
    }

    save_bans-IsSaved :
        (s : AuthService) (old : BannedState)
        → load_from s.ban_file ≡ some old
        → load_from s.sessions_file ≡ some (values s.sessions)
        → IsSaved (save_bans ban_disk sessions_disk s)
    unfolding save_bans
    save_bans-IsSaved s old bans tokens = record {
      bans = load_from-save_to ban_disk _ old s.ban_file bans_kept bans;
      tokens = tokens;
    }

    issue-IsSaved :
        (now : ℕ) (bytes : List ℕ) (machine display ip : Text) (s : AuthService)
        → IsSaved s
        → IsSaved (issue ban_disk sessions_disk now bytes machine display ip s).1
    unfolding issue
    issue-IsSaved now bytes machine display ip s h =
        elim (Option-cases (find (is_live now machine) (values s.sessions))) [
          | inr (x, found) ↦ rw (found, issue) h
          | inl missing ↦ elim (Bool-cases (is_banned ip s || is_member_banned machine s)) [
            | inl refused ↦ rw (missing, refused, issue) h
            | inr allowed ↦ rw (missing, allowed, issue) (save_sessions-IsSaved _ _ h.bans h.tokens)
          ]
        ]

    -- Every operation leaves both files up to date, if they were and the disk takes what is
    -- written.
    pub apply-IsSaved : (op : Op) (s : AuthService) → IsSaved s → IsSaved (apply op s)
    unfolding apply rotate revoke_member unban
    apply-IsSaved (issuing now bytes machine display ip) s h =
        issue-IsSaved now bytes machine display ip s h
    apply-IsSaved (rotating now bytes machine display ip) s h =
        issue-IsSaved now bytes machine display ip _ (save_sessions-IsSaved _ _ h.bans h.tokens)
    apply-IsSaved (banning id ip) s h =
        let marked : AuthService = record s {
          banned = add id s.banned;
          banned_ips = if is_nil ip then s.banned_ips else add ip s.banned_ips;
        } in
        let first = save_bans-IsSaved marked _ h.bans h.tokens in
        save_sessions-IsSaved (save_bans ban_disk sessions_disk marked) _ first.bans first.tokens
    apply-IsSaved (lifting id ip) s h = save_bans-IsSaved _ _ h.bans h.tokens

  -- Every operation keeps the sessions valid: each stands under its token, which no other has.
  auth_op-IsValid : (op : Op) (s : AuthService) → IsValid s → IsValid (apply op s)
  unfolding apply revoke_member unban save_bans save_sessions
  auth_op-IsValid (issuing now bytes machine display ip) s h =
      issue-IsValid ban_disk sessions_disk now bytes machine display ip s h
  auth_op-IsValid (rotating now bytes machine display ip) s h =
      rotate-IsValid ban_disk sessions_disk now bytes machine display ip s h
  auth_op-IsValid (banning id ip) s h = record { unique = h.unique; keyed = h.keyed }
  auth_op-IsValid (lifting id ip) s h = record { unique = h.unique; keyed = h.keyed }
