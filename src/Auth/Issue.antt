-- ===== src/Auth/Issue.antt =====
-- Issuing, rotating and verifying tokens.
use aipowergateway.Prelude.{
  ℕ, ◌≡◌, ◌≢◌, refl, ap, ◌∙◌, ◌≤◌, ◌<◌, Bool, false, not, ◌||◌, none, some, List, [], ◌∷◌, arith,
  if◌then◌else◌, Bool-cases, Option-cases, inl, inr, find, find_of_weaker, find-IsMember, retain,
  ok, err, All,
}
use aipowergateway.Prelude.Text.{Text, text_eq, text_eq_iff, text_eq_refl}
use aipowergateway.Prelude.Map.{
  Map, lookup, insert, values, find-insert, find-lookup, lookup-insert, lookup-insert_self,
  lookup-retain, HasUniqueKeys, insert-HasUniqueKeys, retain-HasUniqueKeys,
}
use aipowergateway.Disk.{Disk}
use aipowergateway.Auth.{
  Session, AuthService, AuthError, BannedState, is_live, issue, rotate, verify, gen_token,
  save_sessions, save_bans, revoke_member, unban, is_banned, is_member_banned, fresh_session,
}

-- The sessions of a running service: each stands under its token, which no other has.
abbrev pub IsKeyed : Map Session → Type 0
IsKeyed = All (λ e. e.1.token ≡ e.0)

pub record IsValid (s : AuthService) : Type 0 where
  pub unique : HasUniqueKeys s.sessions
  pub keyed : IsKeyed s.sessions

pub insert-IsKeyed : (x : Session) (m : Map Session) → IsKeyed m → IsKeyed (insert x.token x m)
unfolding insert
insert-IsKeyed x [] h = (refl, tt)
insert-IsKeyed x ((j, w) ∷ m) h = ground (arith, insert-IsKeyed x m h.1)

retain-IsKeyed :
    (keep : Text × Session → Bool) (m : Map Session) → IsKeyed m → IsKeyed (retain keep m)
retain-IsKeyed keep [] h = tt
retain-IsKeyed keep ((j, w) ∷ m) h = ground (arith, retain-IsKeyed keep m h.1)

lookup-IsKeyed :
    (k : Text) (m : Map Session) (x : Session) → IsKeyed m → lookup k m ≡ some x → x.token ≡ k
unfolding lookup
lookup-IsKeyed k [] x h e = cc
lookup-IsKeyed k ((j, w) ∷ m) x h e = ground (arith, text_eq_iff j k, lookup-IsKeyed k m x h.1)

-- A ban, or its lifting, of a member and an address.
pub data Ruling : Type 0 where
  ban lift : Text → Text → Ruling

module _ (ban_disk : Disk BannedState) (sessions_disk : Disk (List Session)) where
  -- The session that an issue returns is the first live one of its machine afterwards.
  find-issue :
      (now : ℕ) (bytes : List ℕ) (machine display ip : Text) (s s' : AuthService) (x : Session)
      → issue ban_disk sessions_disk now bytes machine display ip s ≡ (ok x, s')
      → now < x.expires_at
      → find (is_live now machine) (values s'.sessions) ≡ some x
  unfolding issue
  find-issue now bytes machine display ip s s' x h live =
      elim (Option-cases (find (is_live now machine) (values s.sessions))) [
        | inr (y, found) ↦ ground arith
        | inl missing ↦ elim (Bool-cases (is_banned ip s || is_member_banned machine s)) [
          | inl refused ↦ ground arith
          | inr allowed ↦
              let y : Session = fresh_session s.ttl_secs now bytes machine display in
              ground (
                arith,
                text_eq_refl machine,
                find-insert (is_live now machine) y.token y s.sessions missing,
              )
        ]
      ]

  -- What the leader decides on members and addresses.
  abbrev pub governed : List Ruling → AuthService → AuthService
  governed [] s = s
  governed (Ruling.ban id ip ∷ rulings) s =
      governed rulings (revoke_member ban_disk sessions_disk id ip s)
  governed (Ruling.lift id ip ∷ rulings) s = governed rulings (unban ban_disk sessions_disk id ip s)

  sessions-governed :
      (rulings : List Ruling) (s : AuthService) → (governed rulings s).sessions ≡ s.sessions
  unfolding revoke_member unban save_bans save_sessions
  sessions-governed [] s = refl
  sessions-governed (Ruling.ban id ip ∷ rulings) s =
      sessions-governed rulings (revoke_member ban_disk sessions_disk id ip s)
  sessions-governed (Ruling.lift id ip ∷ rulings) s =
      sessions-governed rulings (unban ban_disk sessions_disk id ip s)

  -- A machine that asks again before its session expires gets the same session, and changes nothing,
  -- from any address and under any display name. Bans and their lifting in between, of that machine
  -- too, do not count: a banned machine gets its old session back. Other requests and rotations in
  -- between are not considered.
  pub issue-issue :
      (now later : ℕ) (bytes bytes' : List ℕ) (machine display display' ip ip' : Text)
      (rulings : List Ruling) (s s' : AuthService) (x : Session)
      → issue ban_disk sessions_disk now bytes machine display ip s ≡ (ok x, s')
      → now ≤ later
      → later < x.expires_at
      → issue ban_disk sessions_disk later bytes' machine display' ip' (governed rulings s')
        ≡ (ok x, governed rulings s')
  unfolding issue
  issue-issue now later bytes bytes' machine display display' ip ip' rulings s s' x h before live =
      let live_now : now < x.expires_at = omega arith in
      let first = find-issue now bytes machine display ip s s' x h live_now in
      let first_later : find (is_live later machine) (values s'.sessions) ≡ some x =
        find_of_weaker (is_live now machine) (is_live later machine) (λ y k. ground arith)
          (values s'.sessions) x first
          (ground (arith, (find-IsMember (is_live now machine) (values s'.sessions) x first).1)) in
      let there : find (is_live later machine) (values (governed rulings s').sessions) ≡ some x =
        ap (λ (m : Map Session). find (is_live later machine) (values m))
          (sessions-governed rulings s')
        ∙ first_later in
      rw (there, issue)

  -- The token that an issue returns stands for its session: it verifies up to its last second, if
  -- the machine is not banned.
  pub verify-issue :
      (now later : ℕ) (bytes : List ℕ) (machine display ip : Text) (s s' : AuthService)
      (x : Session)
      → IsValid s
      → is_member_banned machine s ≡ false
      → issue ban_disk sessions_disk now bytes machine display ip s ≡ (ok x, s')
      → later ≤ x.expires_at
      → verify later x.token s' ≡ some x
  unfolding issue verify
  verify-issue now later bytes machine display ip s s' x valid allowed h live =
      elim (Option-cases (find (is_live now machine) (values s.sessions))) [
        | inr (y, found) ↦
            let (k, stands, is_live_y) =
              find-lookup (is_live now machine) s.sessions y valid.unique found in
            ground (
              arith,
              lookup-IsKeyed k s.sessions y valid.keyed stands,
              text_eq_iff y.member_id machine,
            )
        | inl missing ↦
            let y : Session = fresh_session s.ttl_secs now bytes machine display in
            ground (arith, lookup-insert_self y.token y s.sessions)
      ]

  find-retain :
      (now : ℕ) (machine : Text) (m : Map Session)
      → find (is_live now machine) (values (retain (λ e. not (text_eq e.1.member_id machine)) m))
        ≡ none
  find-retain now machine [] = refl
  find-retain now machine ((j, w) ∷ m) = ground (arith, find-retain now machine m)

  -- A rotation is refused exactly when the address or the machine is banned, and otherwise returns
  -- a fresh session: no old token comes back.
  rotate_lem :
      (now : ℕ) (bytes : List ℕ) (machine display ip : Text) (s : AuthService)
      → (rotate ban_disk sessions_disk now bytes machine display ip s).0 ≡ (
          if is_banned ip s || is_member_banned machine s
          then err AuthError.banned
          else ok (fresh_session s.ttl_secs now bytes machine display))
  unfolding rotate issue
  rotate_lem now bytes machine display ip s =
      rw (find-retain now machine s.sessions, rotate, issue) (ground arith)

  -- After a rotation every token that the machine held is dead, whether or not a new one was
  -- issued, unless the random bytes repeat it.
  pub verify-rotate :
      (now later : ℕ) (bytes : List ℕ) (machine display ip old : Text) (s : AuthService)
      (x : Session)
      → IsValid s
      → lookup old s.sessions ≡ some x
      → x.member_id ≡ machine
      → gen_token bytes ≢ old
      → verify later old (rotate ban_disk sessions_disk now bytes machine display ip s).1 ≡ none
  unfolding rotate issue verify
  verify-rotate now later bytes machine display ip old s x valid held owner fresh =
      let kept = retain (λ e. not (text_eq e.1.member_id machine)) s.sessions in
      let y : Session = fresh_session s.ttl_secs now bytes machine display in
      ground (
        arith,
        find-retain now machine s.sessions,
        lookup-insert y.token old y kept,
        lookup-retain (λ e. not (text_eq e.1.member_id machine)) old s.sessions x valid.unique held,
        text_eq_iff x.member_id machine,
        text_eq_iff y.token old,
      )

  pub issue-IsValid :
      (now : ℕ) (bytes : List ℕ) (machine display ip : Text) (s : AuthService)
      → IsValid s
      → IsValid (issue ban_disk sessions_disk now bytes machine display ip s).1
  unfolding issue
  issue-IsValid now bytes machine display ip s valid =
      let y : Session = fresh_session s.ttl_secs now bytes machine display in
      ground (
        arith,
        insert-HasUniqueKeys y.token y s.sessions valid.unique,
        insert-IsKeyed y s.sessions valid.keyed,
      )

  pub rotate-IsValid :
      (now : ℕ) (bytes : List ℕ) (machine display ip : Text) (s : AuthService)
      → IsValid s
      → IsValid (rotate ban_disk sessions_disk now bytes machine display ip s).1
  unfolding rotate save_sessions
  rotate-IsValid now bytes machine display ip s valid =
      issue-IsValid now bytes machine display ip _ (record {
        unique = retain-HasUniqueKeys _ s.sessions valid.unique;
        keyed = retain-IsKeyed _ s.sessions valid.keyed;
      })
