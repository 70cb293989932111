-- ===== src/Strategy/Laws.antt =====
-- The member's check agrees with what the gateway would answer.
use aipowergateway.Prelude.{
  ℕ, ◌≡◌, refl, sym, ◌∙◌, ap, inl, inr, Bool, ◌&&◌, Option, none, some, List, if◌then◌else◌, ltb,
  leb, unwrap_or, Bool-cases, Option-cases, Result, ok, err,
}
use aipowergateway.Prelude.Text.{Text}
use aipowergateway.Prelude.Map.{lookup}
use aipowergateway.Disk.{Disk, at_path, IsReliable}
use aipowergateway.Auth.{
  AuthService, Session, BannedState, verify, lookup_session, is_member_banned,
}
use aipowergateway.Quota
use aipowergateway.Api.{ApiState, Headers, bearer_token, used}
use aipowergateway.Api.Control.{Outcome, api_strategy_me}
use aipowergateway.Strategy.{
  StrategySummary, PreflightBlock, banned, quota_exceeded, preflight_block, new, get, set,
  preflight,
}

-- The summary of a session.
summary_of :
    (now : ℕ) (bans : Disk BannedState) (sessions : Disk (List Session)) (policy : Disk Bool)
    (version at : ℕ) (h : Headers) (st : ApiState) (s : StrategySummary)
    → api_strategy_me now bans sessions policy version at h st ≡ Outcome.done s
    → (token : Text) × (x : Session) × (bearer_token h ≡ some token)
      × (lookup_session now token st.auth ≡ some x)
      × (s.quota.limit ≡ unwrap_or (Quota.get x.member_id st.quota) 0)
      × (s.quota.used ≡ used x.member_id st)
      × (s.banned ≡ is_member_banned x.member_id st.auth)
unfolding api_strategy_me
summary_of now bans sessions policy version at h st s e = elim (Option-cases (bearer_token h)) [
  | inl missing ↦ let clash = rw (missing, api_strategy_me) at e in cc
  | inr (token, carried) ↦ elim (Option-cases (lookup_session now token st.auth)) [
    | inl unknown ↦ let clash = rw (carried, api_strategy_me, unknown) at e in cc
    | inr (x, known) ↦
        let made = done_inj (rw (carried, api_strategy_me, known) at e) in
        (
          token,
          x,
          carried,
          known,
          sym (ap (λ (y : StrategySummary). y.quota.limit) made),
          sym (ap (λ (y : StrategySummary). y.quota.used) made),
          sym (ap (λ (y : StrategySummary). y.banned) made),
        )
  ]
]
  where
    done_inj : {A : Type 0} {x y : A} → Outcome.done x ≡ Outcome.done y → x ≡ y
    done_inj p = cc

verify-lookup_session :
    (now : ℕ) (token : Text) (a : AuthService) (x : Session)
    → lookup_session now token a ≡ some x
    → verify now token a ≡ (if is_member_banned x.member_id a then none else some x)
unfolding verify lookup_session
verify-lookup_session now token a x h = elim (Option-cases (lookup token a.sessions)) [
  | inl missing ↦ let clash = rw (missing, lookup_session) at h in cc
  | inr (y, found) ↦ elim (Bool-cases (ltb y.expires_at now)) [
    | inl expired ↦ let clash = rw (found, lookup_session, expired) at h in cc
    | inr live ↦
        let same : y ≡ x = some_inj (rw (found, lookup_session, live) at h) in
        rw (found, verify, live)
          (ap (λ (z : Session). if is_member_banned z.member_id a then none else some z) same)
  ]
]
  where
    some_inj : {A : Type 0} {y z : A} → some y ≡ some z → y ≡ z
    some_inj p = cc

-- The answer of the member's check for a limit, and that of the gateway's.
abbrev over_limit : ℕ → ℕ → Option PreflightBlock
over_limit limit spent =
    if ltb 0 limit && leb limit spent then some (quota_exceeded limit) else none

abbrev pub refusal : Result (Unit {0}) Quota.QuotaExceeded → Option PreflightBlock
refusal (ok _) = none
refusal (err q) = some (quota_exceeded q.limit)

over_limit-check :
    (id : Text) (spent : ℕ) (q : Quota.QuotaService)
    → over_limit (unwrap_or (Quota.get id q) 0) spent ≡ refusal (Quota.check id spent q)
unfolding Quota.get Quota.check
over_limit-check id spent q = elim (Option-cases (lookup id q.quotas)) [
  | inl unset ↦ rw (unset, Quota.get, Quota.check) refl
  | inr (limit, set_to) ↦
      rw (set_to, Quota.get, Quota.check)
        (elim (Bool-cases (ltb 0 limit && leb limit spent)) [
          | inl over ↦ rw over refl
          | inr within ↦ rw within refl
        ])
]

-- On the grounds of a summary the member's machine decides as the gateway does in the state of which
-- the summary was made: it reports a ban exactly if the gateway does not accept the token any more,
-- and else it holds the request back exactly if the check of the quota refuses, with the same limit.
pub preflight_block-api_strategy_me :
    (now : ℕ) (bans : Disk BannedState) (sessions : Disk (List Session)) (policy : Disk Bool)
    (version at : ℕ) (h : Headers) (st : ApiState) (s : StrategySummary)
    → api_strategy_me now bans sessions policy version at h st ≡ Outcome.done s
    → (token : Text) × (x : Session) × (bearer_token h ≡ some token)
      × (verify now token st.auth ≡ (if s.banned then none else some x))
      × (preflight_block s ≡ (
          if s.banned
          then some banned
          else refusal (Quota.check x.member_id (used x.member_id st) st.quota)))
unfolding preflight_block
preflight_block-api_strategy_me now bans sessions policy version at h st s e =
    let (token, x, carried, known, limit, spent, ban) =
      summary_of now bans sessions policy version at h st s e in
    (
      token,
      x,
      carried,
      verify-lookup_session now token st.auth x known ∙ rw ban refl,
      rw (limit, spent)
          (ap (λ (o : Option PreflightBlock). if s.banned then some banned else o)
            (over_limit-check x.member_id (used x.member_id st) st.quota)),
    )

-- With a path, and a disk that takes the write, a restarted machine holds the summary that was set last, and
-- makes the same check.
preflight-new :
    (disk : Disk StrategySummary) (s : StrategySummary) (old file : Option StrategySummary)
    → IsReliable disk
    → let c = set disk s (record { inner = old; persist_path = at_path file }) in
      (get (new c.persist_path) ≡ some s) × (preflight (new c.persist_path) ≡ preflight_block s)
unfolding get new set preflight
preflight-new disk s old file reliable = (reliable file s, rw (reliable file s) refl)
