-- ===== src/Api/Chat/Entry.antt =====
-- What the first checks of a handler let through, and what they leave alone.
use aipowergateway.Prelude.{
  ◌≡◌, refl, sym, ◌∙◌, ap, inl, inr, Bool, true, false, some, Bool-cases, Option-cases, Result, ok,
  err, subst,
}
use aipowergateway.Prelude.Text.{Text}
use aipowergateway.Auth.{Session, verify}
use aipowergateway.Quota
use aipowergateway.Api.State.{
  ApiState, World, Headers, Response, completed, bearer_token, used, enter,
}
use aipowergateway.Api.Chat.Served.{Result-cases}

-- An upstream has answered.
abbrev pub is_completed : Response → Bool
is_completed (completed rule_set upstream stream resp) = true
is_completed _ = false

-- A request that passes the first checks.
pub record IsEntered (w : World) (h : Headers) (st : ApiState) (session : Session) : Type 0 where
  pub sharing : st.sharing ≡ true
  pub token : Text
  pub carried : bearer_token h ≡ some token
  pub verified : verify w.now token st.auth ≡ some session
  pub within_quota : Quota.check session.member_id (used session.member_id st) st.quota ≡ ok tt

module _ (w : World) (h : Headers) (st : ApiState) where
  -- The first checks touch nothing but the member list.
  pub enter-frame :
      ((enter w h st).1.usage ≡ st.usage)
      × ((enter w h st).1.policy ≡ st.policy)
      × ((enter w h st).1.rules ≡ st.rules)
      × ((enter w h st).1.backends ≡ st.backends)
      × ((enter w h st).1.health ≡ st.health)
  unfolding enter
  enter-frame = elim (Bool-cases st.sharing) [
    | inr off ↦ rw (off, enter) (refl, refl, refl, refl, refl)
    | inl on ↦ elim (Option-cases (bearer_token h)) [
      | inl missing ↦ rw (on, enter, missing) (refl, refl, refl, refl, refl)
      | inr (token, carried) ↦ elim (Option-cases (verify w.now token st.auth)) [
        | inl unknown ↦ rw (on, enter, carried, unknown) (refl, refl, refl, refl, refl)
        | inr (session, known) ↦ rw (on, enter, carried, known) (refl, refl, refl, refl, refl)
      ]
    ]
  ]

  pub enter-ok : (session : Session) → (enter w h st).0 ≡ ok session → IsEntered w h st session
  unfolding enter
  enter-ok session e = elim (Bool-cases st.sharing) [
    | inr off ↦ let clash = rw (off, enter) at e in cc
    | inl on ↦ elim (Option-cases (bearer_token h)) [
      | inl missing ↦ let clash = rw (on, enter, missing) at e in cc
      | inr (token, carried) ↦ elim (Option-cases (verify w.now token st.auth)) [
        | inl unknown ↦ let clash = rw (on, enter, carried, unknown) at e in cc
        | inr (s, known) ↦
            elim (Result-cases (Quota.check s.member_id (used s.member_id st) st.quota)) [
              | inl (q, over) ↦ let clash = rw (on, enter, carried, known, over) at e in cc
              | inr (u, within) ↦
                  let here : ok s ≡ ok session = rw (on, enter, carried, known, within) at e in
                  let same : s ≡ session = ok_inj here in
                  record {
                    sharing = on;
                    token = token;
                    carried = carried;
                    verified = known ∙ ap (λ x. some x) same;
                    within_quota =
                        subst
                          (λ (x : Session).
                            Quota.check x.member_id (used x.member_id st) st.quota ≡ ok tt)
                          same within;
                  }
            ]
      ]
    ]
  ]
    where
      ok_inj : {A E : Type 0} {x y : A} → Path (Result A E) (ok x) (ok y) → x ≡ y
      ok_inj p = cc

  pub enter-refusal : (r : Response) → (enter w h st).0 ≡ err r → is_completed r ≡ false
  unfolding enter
  enter-refusal r e = elim (Bool-cases st.sharing) [
    | inr off ↦ refused (rw (off, enter) at e) refl
    | inl on ↦ elim (Option-cases (bearer_token h)) [
      | inl missing ↦ refused (rw (on, enter, missing) at e) refl
      | inr (token, carried) ↦ elim (Option-cases (verify w.now token st.auth)) [
        | inl unknown ↦ refused (rw (on, enter, carried, unknown) at e) refl
        | inr (s, known) ↦
            elim (Result-cases (Quota.check s.member_id (used s.member_id st) st.quota)) [
              | inl (q, over) ↦ refused (rw (on, enter, carried, known, over) at e) refl
              | inr (u, within) ↦ let clash = rw (on, enter, carried, known, within) at e in cc
            ]
      ]
    ]
  ]
    where
      refused :
          {x : Response}
          → Path (Result Session Response) (err x) (err r)
          → is_completed x ≡ false
          → is_completed r ≡ false
      refused p q = ap is_completed (sym (err_inj p)) ∙ q
        where
          err_inj : {x : Response} → Path (Result Session Response) (err x) (err r) → x ≡ r
          err_inj p = cc
