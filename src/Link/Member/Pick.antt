-- ===== src/Link/Member/Pick.antt =====
-- Which leader a member's gateway talks to.
use aipowergateway.Prelude.{
  ℕ, ◌≤◌, ◌≡◌, sym, subst, inl, inr, Bool, true, false, Option, none, some, List, [], ◌∷◌, leb,
  leb→le, arith, Bool-cases, All, IsMember, IsMember-retain, All-member, All-of_members, head,
  retain,
}
use aipowergateway.Prelude.Sort.{sort_by, IsSorted, sort_by-IsSorted, Any-sort_by}
use aipowergateway.Link.Discovery.{LeaderInfo, leaders}
use aipowergateway.Link.Member.{MemberGateway, pick_leader}

abbrev by_seen : LeaderInfo → LeaderInfo → Bool
by_seen a b = leb b.last_seen a.last_seen

-- The first of a list in descending order.
first-IsFreshest :
    (xs : List LeaderInfo) (l : LeaderInfo)
    → IsSorted by_seen xs
    → head xs ≡ some l
    → IsMember l xs × ((m : LeaderInfo) → IsMember m xs → m.last_seen ≤ l.last_seen)
first-IsFreshest [] l h e = cc
first-IsFreshest (x ∷ xs) l (front, h) e =
    let same : x ≡ l = some_inj e in
    (
      inl (sym same),
      λ m k. elim k [
        | inl first ↦
            subst (λ (z : LeaderInfo). m.last_seen ≤ z.last_seen) same
              (subst (λ (z : LeaderInfo). z.last_seen ≤ x.last_seen) (sym first) (ground arith))
        | inr later ↦
            subst (λ (z : LeaderInfo). m.last_seen ≤ z.last_seen) same
              (leb→le m.last_seen x.last_seen
                (All-member (λ y. by_seen x y ≡ true) xs m front later))
      ],
    )
  where
    some_inj : {a b : LeaderInfo} → Path (Option LeaderInfo) (some a) (some b) → a ≡ b
    some_inj p = cc

head-none : (xs : List LeaderInfo) (m : LeaderInfo) → head xs ≡ none → IsMember m xs → ⊥
head-none [] m e k = absurd k
head-none (x ∷ xs) m e k = cc

-- Without a leader from a deep link, the leader that is picked is online and no leader that is
-- online was heard later; none is picked only if no leader is online.
pub pick_leader-IsFreshest :
    (now : ℕ) (g : MemberGateway)
    → g.static_leader ≡ none
    → ((l : LeaderInfo)
        → pick_leader now g ≡ some l
        → IsMember l (leaders now g.discovery)
          × (l.online ≡ true)
          × ((m : LeaderInfo)
              → IsMember m (leaders now g.discovery)
              → m.online ≡ true
              → m.last_seen ≤ l.last_seen))
      × (pick_leader now g ≡ none → All (λ m. m.online ≡ false) (leaders now g.discovery))
unfolding pick_leader
pick_leader-IsFreshest now g h =
    let online = λ (l : LeaderInfo). l.online in
    let all = leaders now g.discovery in
    let kept = retain online all in
    let keeps = λ (m : LeaderInfo). IsMember-retain online m all in
    let sorts = λ (m : LeaderInfo). Any-sort_by by_seen (λ y. m ≡ y) kept in
    (
      λ l e.
          let (m, fresh) =
            first-IsFreshest (sort_by by_seen kept) l (sort_by-IsSorted by_seen total trans kept)
              (rw (h, pick_leader) at e) in
          let (inside, on) = (keeps l).0 ((sorts l).0 m) in
          (inside, on, λ y k up. fresh y ((sorts y).1 ((keeps y).1 (k, up)))),
      λ e. All-of_members (λ m. m.online ≡ false) all (λ m k. offline m k e),
    )
  where
    total : (x y : LeaderInfo) → by_seen x y ≡ false → by_seen y x ≡ true
    total x y k = ground arith

    trans : (x y z : LeaderInfo) → by_seen x y ≡ true → by_seen y z ≡ true → by_seen x z ≡ true
    trans x y z k l = ground arith

    offline :
        (m : LeaderInfo)
        → IsMember m (leaders now g.discovery)
        → pick_leader now g ≡ none
        → m.online ≡ false
    offline m k e = elim (Bool-cases m.online) [
      | inr down ↦ down
      | inl up ↦
          let kept = retain (λ (l : LeaderInfo). l.online) (leaders now g.discovery) in
          let there =
            (IsMember-retain (λ (l : LeaderInfo). l.online) m (leaders now g.discovery)).1
              (k, up) in
          absurd (
            head-none (sort_by by_seen kept) m (rw (h, pick_leader) at e)
              ((Any-sort_by by_seen (λ y. m ≡ y) kept).1 there))
    ]
