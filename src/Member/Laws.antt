-- ===== src/Member/Laws.antt =====
-- Heartbeats and listing: a sweep cannot be seen, the list is in the order of joining, an entry
-- answers for its machine, and a heartbeat keeps a member online for the timeout.
use aipowergateway.Prelude.{
  ℕ, ◌≡◌, ◌∙◌, refl, ◌≤◌, ◌-◌, none, some, map, [], ◌∷◌, arith, if◌then◌else◌, Bool-cases,
  Option-cases, inl, inr, is_some, leb, All,
}
use aipowergateway.Prelude.Text.{Text, text_eq, text_eq_iff}
use aipowergateway.Prelude.Map.{
  Map, lookup, insert, modify, values, lookup-insert, HasUniqueKeys, insert-HasUniqueKeys,
  modify-HasUniqueKeys,
}
use aipowergateway.Prelude.Sort.{IsSorted, sort_by-IsSorted}
use aipowergateway.Member.{
  Member, MemberRegistry, is_online, upsert, rename, mark_offline, sweep, all, expire, shown,
}

shown-expire :
    (now later timeout : ℕ) (e : Text × Member)
    → now ≤ later
    → shown later timeout (expire now timeout e).1 ≡ shown later timeout e.1
unfolding is_online
shown-expire now later timeout e h = ground arith

map-shown-expire :
    (now later timeout : ℕ) (m : Map Member)
    → now ≤ later
    → map (shown later timeout) (values (map (expire now timeout) m))
      ≡ map (shown later timeout) (values m)
map-shown-expire now later timeout [] h = refl
map-shown-expire now later timeout (e ∷ m) h =
    cc (shown-expire now later timeout e h, map-shown-expire now later timeout m h)

-- A sweep changes nothing that the list of members shows then or later: the list applies the
-- timeout itself.
all-sweep :
    (now later : ℕ) (r : MemberRegistry) → now ≤ later → all later (sweep now r) ≡ all later r
unfolding all sweep
all-sweep now later r h = rw (map-shown-expire now later r.timeout_secs r.inner h)

-- The list of members is in the order of joining.
members-IsSorted :
    (now : ℕ) (r : MemberRegistry) → IsSorted (λ a b. leb a.joined_at b.joined_at) (all now r)
unfolding all
members-IsSorted now r =
    sort_by-IsSorted (λ a b. leb a.joined_at b.joined_at) (λ a b h. ground arith)
      (λ a b c h k. ground arith) _

-- A heartbeat of a machine is what is found for it afterwards; it is online until the timeout has
-- passed since then, keeps the time of joining that it had, and no other entry changes.
upsert_lem :
    (now later : ℕ) (machine display ip j : Text) (r : MemberRegistry)
    → let (s, m) = upsert now machine display ip r in
      (lookup j s.inner ≡ (if text_eq machine j then some m else lookup j r.inner))
      × (is_online later r.timeout_secs m ≡ leb (later - now) r.timeout_secs)
      × ((old : Member) → lookup machine r.inner ≡ some old → m.joined_at ≡ old.joined_at)
unfolding upsert is_online
upsert_lem now later machine display ip j r =
    (lookup-insert machine j _ r.inner, refl, λ old h. rw h)

-- An entry answers for the machine under which it stands, and no machine stands twice.
abbrev pub IsKeyed : Map Member → Type 0
IsKeyed = All (λ e. (e.1.member_id ≡ e.0) × (e.1.machine_name ≡ e.0))

pub record IsValid (r : MemberRegistry) : Type 0 where
  pub unique : HasUniqueKeys r.inner
  pub keyed : IsKeyed r.inner

insert-IsKeyed :
    (k : Text) (v : Member) (m : Map Member)
    → IsKeyed m
    → v.member_id ≡ k
    → v.machine_name ≡ k
    → IsKeyed (insert k v m)
unfolding insert
insert-IsKeyed k v [] h p q = ((p, q), tt)
insert-IsKeyed k v ((j, w) ∷ m) h p q = elim (Bool-cases (text_eq j k)) [
  | inl e ↦ rw e ((p, q), h.1)
  | inr e ↦ rw e (h.0, insert-IsKeyed k v m h.1 p q)
]

modify-IsKeyed :
    (k : Text) (f : Member → Member)
    → ((m : Member) → ((f m).member_id ≡ m.member_id) × ((f m).machine_name ≡ m.machine_name))
    → (m : Map Member) → IsKeyed m
    → IsKeyed (modify k f m)
unfolding modify
modify-IsKeyed k f keep [] h = tt
modify-IsKeyed k f keep ((j, w) ∷ m) h = elim (Bool-cases (text_eq j k)) [
  | inl e ↦ rw e ((((keep w).0 ∙ h.0.0), ((keep w).1 ∙ h.0.1)), h.1)
  | inr e ↦ rw e (h.0, modify-IsKeyed k f keep m h.1)
]

lookup-IsKeyed :
    (k : Text) (m : Map Member) (v : Member)
    → IsKeyed m
    → lookup k m ≡ some v
    → (v.member_id ≡ k) × (v.machine_name ≡ k)
unfolding lookup
lookup-IsKeyed k [] v h e = cc
lookup-IsKeyed k ((j, w) ∷ m) v h e = ground (arith, text_eq_iff j k, lookup-IsKeyed k m v h.1)

lookup-map-expire :
    (now timeout : ℕ) (k : Text) (m : Map Member)
    → lookup k m ≡ none
    → lookup k (map (expire now timeout) m) ≡ none
unfolding lookup
lookup-map-expire now timeout k [] h = refl
lookup-map-expire now timeout k ((j, w) ∷ m) h = ground (arith, lookup-map-expire now timeout k m)

map-expire-HasUniqueKeys :
    (now timeout : ℕ) (m : Map Member)
    → HasUniqueKeys m
    → HasUniqueKeys (map (expire now timeout) m)
map-expire-HasUniqueKeys now timeout [] h = tt
map-expire-HasUniqueKeys now timeout ((j, w) ∷ m) (p, h) =
    (lookup-map-expire now timeout j m p, map-expire-HasUniqueKeys now timeout m h)

map-expire-IsKeyed :
    (now timeout : ℕ) (m : Map Member) → IsKeyed m → IsKeyed (map (expire now timeout) m)
map-expire-IsKeyed now timeout [] h = tt
map-expire-IsKeyed now timeout ((j, w) ∷ m) (p, h) =
    (ground arith, map-expire-IsKeyed now timeout m h)

upsert-IsValid :
    (now : ℕ) (machine display ip : Text) (r : MemberRegistry)
    → IsValid r
    → IsValid (upsert now machine display ip r).0
unfolding upsert
upsert-IsValid now machine display ip r h = record {
  unique = insert-HasUniqueKeys machine _ r.inner h.unique;
  keyed =
      let known = lookup-IsKeyed machine r.inner in
      elim (Option-cases (lookup machine r.inner)) [
        | inl fresh ↦ rw fresh (insert-IsKeyed machine _ r.inner h.keyed refl refl)
        | inr (old, found) ↦ rw found (
            insert-IsKeyed machine _ r.inner h.keyed (known old h.keyed found).0
              (known old h.keyed found).1)
      ];
}

rename-IsValid :
    (machine display : Text) (r : MemberRegistry) → IsValid r → IsValid (rename machine display r).0
unfolding rename
rename-IsValid machine display r h = elim (Bool-cases (is_some (lookup machine r.inner))) [
  | inl e ↦ rw e (record {
    unique = modify-HasUniqueKeys machine _ r.inner h.unique;
    keyed = modify-IsKeyed machine _ (λ m. (refl, refl)) r.inner h.keyed;
  })
  | inr e ↦ rw e h
]

-- The operations of the registry that change it, with what each is given.
pub data Op : Type 0 where
  heartbeat : ℕ → Text → Text → Text → Op
  name : Text → Text → Op
  leave : Text → Op
  tick : ℕ → Op

unfoldable pub apply : Op → MemberRegistry → MemberRegistry
apply (heartbeat now machine display ip) r = (upsert now machine display ip r).0
apply (name machine display) r = (rename machine display r).0
apply (leave machine) r = mark_offline machine r
apply (tick now) r = sweep now r

-- Every operation keeps the registry valid: each entry answers for the machine under which it
-- stands, as its id and its name, and no machine stands twice.
pub member_op-IsValid : (op : Op) (r : MemberRegistry) → IsValid r → IsValid (apply op r)
unfolding apply mark_offline sweep
member_op-IsValid (heartbeat now machine display ip) r h = upsert-IsValid now machine display ip r h
member_op-IsValid (name machine display) r h = rename-IsValid machine display r h
member_op-IsValid (leave machine) r h = record {
  unique = modify-HasUniqueKeys machine _ r.inner h.unique;
  keyed = modify-IsKeyed machine _ (λ m. (refl, refl)) r.inner h.keyed;
}
member_op-IsValid (tick now) r h = record {
  unique = map-expire-HasUniqueKeys now r.timeout_secs r.inner h.unique;
  keyed = map-expire-IsKeyed now r.timeout_secs r.inner h.keyed;
}
