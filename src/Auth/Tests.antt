-- ===== src/Auth/Tests.antt =====
-- Runs of the auth service after the tests of the source, and its laws at such inputs.
use aipowergateway.Prelude.{◌≡◌, refl, none, some, [], ◌∷◌, arith, if◌then◌else◌, ok, err, ◌>>=◌}
use aipowergateway.Prelude.Text.{Text, text, text_eq}
use aipowergateway.Prelude.Map.{lookup, insert}
use aipowergateway.Prelude.Sort.{sort_by}
use aipowergateway.Prelude.TextSet.{has, add}
use aipowergateway.Disk.{unsaved, at_path, working_disk}
use aipowergateway.Auth.{
  Session, AuthService, AuthError, issue, rotate, revoke_member, verify, lookup_session, gen_token,
  is_banned, is_member_banned, new, new_with_store, fresh_session, session_count,
}
use aipowergateway.Auth.Issue.{IsValid, Ruling, governed, issue-issue, verify-issue, verify-rotate}
use aipowergateway.Auth.Ban.{verify-revoke_member}
use aipowergateway.Auth.Restart.{IsSaved, verify-new_with_store, Op, apply, apply-IsSaved}

abbrev pc1 : Text
pc1 = text "pc-1"

abbrev home : Text
home = text "10.0.0.2"

abbrev first_session : Session
first_session = record {
  token = text "0aff";
  member_id = pc1;
  machine_name = pc1;
  display_name = text "alice";
  expires_at = 4600;
  issued_at = 1000;
}

-- A service with one session, both files up to date.
abbrev running : AuthService
running = record {
  sessions = (text "0aff", first_session) ∷ [];
  banned = [];
  banned_ips = [];
  ttl_secs = 3600;
  ban_file = at_path (some (record { members = []; ips = [] }));
  sessions_file = at_path (some (first_session ∷ []));
}

abbrev started : AuthService
started = record running { sessions = []; sessions_file = at_path (some []) }

running-IsValid : IsValid running
unfolding lookup
running-IsValid = record { unique = (refl, tt); keyed = (refl, tt) }

running-IsSaved : IsSaved running
unfolding sort_by
running-IsSaved = record { bans = refl; tokens = refl }

issue_starts :
    issue working_disk working_disk 1000 (10 ∷ 255 ∷ []) pc1 (text "alice") home started
    ≡ (ok first_session, running)
unfolding issue is_member_banned is_banned has gen_token insert
issue_starts = refl

revoke_kills_token :
    let s = revoke_member working_disk working_disk pc1 home running in
    (verify 2000 (text "0aff") s ≡ none)
    × (lookup_session 2000 (text "0aff") s ≡ some first_session)
    × ((rotate working_disk working_disk 2000 (1 ∷ []) pc1 [] home s).0 ≡ err AuthError.banned)
unfolding revoke_member verify lookup_session rotate is_member_banned is_banned has add lookup
revoke_kills_token = (refl, refl, refl)

ttl_zero_is_forever : (fresh_session 0 5 (10 ∷ []) pc1 []).expires_at ≡ 18446744073709551615
ttl_zero_is_forever = refl

session_counts : (session_count running ≡ 1) × (session_count (new 0 3600 unsaved) ≡ 0)
unfolding session_count new
session_counts = (refl, refl)

-- The machine is banned between its requests.
issue-issue_example :
    issue working_disk working_disk 2000 [] pc1 []
      (text "10.0.0.9")
      (governed working_disk working_disk (Ruling.ban pc1 home ∷ []) running)
    ≡ (ok first_session, governed working_disk working_disk (Ruling.ban pc1 home ∷ []) running)
unfolding issue is_member_banned is_banned has gen_token insert
issue-issue_example =
    issue-issue working_disk working_disk 1000 2000 (10 ∷ 255 ∷ []) [] pc1 (text "alice") [] home
      (text "10.0.0.9") (Ruling.ban pc1 home ∷ []) started running first_session refl (omega arith)
      (omega arith)

verify-issue_example : verify 4600 (text "0aff") running ≡ some first_session
unfolding issue is_member_banned is_banned has gen_token insert
verify-issue_example =
    verify-issue working_disk working_disk 1000 4600 (10 ∷ 255 ∷ []) pc1 (text "alice") home started
      running first_session (record { unique = tt; keyed = tt }) refl refl (omega arith)

verify-rotate_example :
    verify 2001 (text "0aff") (rotate working_disk working_disk 2000 (1 ∷ []) pc1 [] home running).1
    ≡ none
unfolding lookup gen_token
verify-rotate_example =
    verify-rotate working_disk working_disk 2000 2001 (1 ∷ []) pc1 [] home (text "0aff") running
      first_session running-IsValid refl refl (ground arith)

verify-revoke_member_example :
    let banned = revoke_member working_disk working_disk pc1 home running in
    (verify 2000 (text "0aff") banned ≡ (
      verify 2000 (text "0aff") running >>= λ x. if text_eq pc1 x.member_id then none else some x))
    × (lookup_session 2000 (text "0aff") banned ≡ lookup_session 2000 (text "0aff") running)
verify-revoke_member_example =
    verify-revoke_member working_disk working_disk 2000 (text "0aff") pc1 home running

verify-new_with_store_example :
    verify 2001 (text "0aff") (new_with_store 2000 3600 running.ban_file running.sessions_file)
    ≡ verify 2001 (text "0aff") running
verify-new_with_store_example =
    verify-new_with_store 2000 2001 3600 (text "0aff") running running-IsValid running-IsSaved
      (omega arith)

apply-IsSaved_example : IsSaved (apply working_disk working_disk (Op.banning pc1 home) running)
apply-IsSaved_example =
    apply-IsSaved working_disk working_disk (λ old a. refl) (λ old a. refl) (Op.banning pc1 home)
      running running-IsSaved
