-- ===== src/Auth/Ban.antt =====
-- Bans: a token of a banned member is refused, is kept, and works again once the ban is lifted.
use aipowergateway.Prelude.{
  ℕ, ◌≡◌, refl, true, false, ◌||◌, none, some, List, arith, if◌then◌else◌, inl, inr, ◌>>=◌,
  Option-cases,
}
use aipowergateway.Prelude.Text.{Text, text_eq, text_eq_iff}
use aipowergateway.Prelude.Map.{lookup}
use aipowergateway.Prelude.TextSet.{add, has-add, has-delete}
use aipowergateway.Disk.{Disk}
use aipowergateway.Auth.{
  Session, AuthService, BannedState, issue, revoke_member, unban, verify, lookup_session, is_banned,
  is_member_banned,
}

module _ (ban_disk : Disk BannedState) (sessions_disk : Disk (List Session)) where
  -- A ban makes exactly the tokens of that member fail to verify; who a token belongs to can still
  -- be looked up as before, which the strategy endpoint needs.
  pub verify-revoke_member :
      (now : ℕ) (token id ip : Text) (s : AuthService)
      → let banned = revoke_member ban_disk sessions_disk id ip s in
        (verify now token banned
          ≡ (verify now token s >>= λ x. if text_eq id x.member_id then none else some x))
        × (lookup_session now token banned ≡ lookup_session now token s)
  unfolding verify revoke_member lookup_session
  verify-revoke_member now token id ip s = (
    elim (Option-cases (lookup token s.sessions)) [
      | inl missing ↦ ground arith
      | inr (x, found) ↦ ground (arith, has-add id x.member_id s.banned)
    ],
    refl,
  )

  -- Lifting the ban of a member who was not banned before gives back what every token verified to.
  verify-unban :
      (now : ℕ) (token id ip : Text) (s : AuthService)
      → is_member_banned id s ≡ false
      → verify now token
          (unban ban_disk sessions_disk id ip (revoke_member ban_disk sessions_disk id ip s))
        ≡ verify now token s
  unfolding verify unban revoke_member
  verify-unban now token id ip s free = elim (Option-cases (lookup token s.sessions)) [
    | inl missing ↦ ground arith
    | inr (x, found) ↦ ground (
      arith,
      has-add id x.member_id s.banned,
      has-delete id x.member_id (add id s.banned),
      text_eq_iff id x.member_id,
    )
  ]

  -- To a banned machine, or from a banned address, an issue puts no new token in and changes
  -- nothing.
  pub issue_banned :
      (now : ℕ) (bytes : List ℕ) (machine display ip : Text) (s : AuthService)
      → (is_banned ip s || is_member_banned machine s) ≡ true
      → (issue ban_disk sessions_disk now bytes machine display ip s).1 ≡ s
  unfolding issue
  issue_banned now bytes machine display ip s h = ground arith
