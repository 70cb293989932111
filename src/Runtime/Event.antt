-- ===== src/Runtime/Event.antt =====
-- crates/runtime/src/event.rs: the bus by which modules send events to each other.
use aipowergateway.Prelude.{
  ℕ, zero, suc, ◌-◌, ◌≡◌, refl, ap, Bool, true, List, [], ◌∷◌, ◌++◌, if◌then◌else◌, ltb, length,
  unwrap_or, inl, inr, arith, Bool-cases,
}
use aipowergateway.Prelude.Text.{Text, text_eq, text_eq_iff}
use aipowergateway.Prelude.Map.{
  Map, lookup, insert, modify, contains_key, lookup-insert, lookup-modify,
}

-- A handler is a function of the event's name and the payload; what it does to the state that the
-- handlers share is its result.
abbrev pub EventHandler : Type 0 → Type 0 → Type 0
EventHandler P S = Text → P → S → S

abbrev pub EventBus : Type 0 → Type 0 → Type 0
EventBus P S = Map (List (EventHandler P S))

abbrev pub no_op : {P S : Type 0} → EventHandler P S
no_op event payload s = s

abbrev pub replace_at : {A : Type 0} → ℕ → A → List A → List A
replace_at i x [] = []
replace_at zero x (y ∷ ys) = x ∷ ys
replace_at (suc i) x (y ∷ ys) = y ∷ replace_at i x ys

abbrev pub run_all : {P S : Type 0} → List (EventHandler P S) → Text → P → S → S
run_all [] event payload s = s
run_all (h ∷ hs) event payload s = run_all hs event payload (h event payload s)

module _ {P S : Type 0} where
  -- The bus and the id of the subscription.
  unfoldable pub subscribe : Text → EventHandler P S → EventBus P S → EventBus P S × ℕ
  unfolding lookup insert
  subscribe event handler bus =
      let list = unwrap_or (lookup event bus) [] ++ (handler ∷ []) in
      (insert event list bus, length list - 1)

  unfoldable pub emit : Text → P → EventBus P S → S → S
  unfolding lookup
  emit event payload bus s = run_all (unwrap_or (lookup event bus) []) event payload s

  unfoldable pub silence : ℕ → List (EventHandler P S) → List (EventHandler P S)
  silence id list = if ltb id (length list) then replace_at id no_op list else list

  unfoldable pub unsubscribe : Text → ℕ → EventBus P S → EventBus P S
  unfolding modify silence
  unsubscribe event id bus = modify event (silence id) bus

  unfoldable pub has_subscribers : Text → EventBus P S → Bool
  unfolding lookup
  has_subscribers event bus = contains_key event bus

run_all-append :
    {P S : Type 0} (xs ys : List (EventHandler P S)) (event : Text) (payload : P) (s : S)
    → run_all (xs ++ ys) event payload s ≡ run_all ys event payload (run_all xs event payload s)
run_all-append [] ys event payload s = refl
run_all-append (h ∷ hs) ys event payload s = run_all-append hs ys event payload (h event payload s)

length-snoc : {A : Type 0} (xs : List A) (x : A) → length (xs ++ (x ∷ [])) ≡ suc (length xs)
length-snoc [] x = refl
length-snoc (y ∷ ys) x = ap (λ n. suc n) (length-snoc ys x)

replace_at-snoc :
    {A : Type 0} (xs : List A) (x y : A)
    → replace_at (length xs) y (xs ++ (x ∷ [])) ≡ xs ++ (y ∷ [])
replace_at-snoc [] x y = refl
replace_at-snoc (z ∷ zs) x y = ap (λ r. z ∷ r) (replace_at-snoc zs x y)

minus_one : (n : ℕ) → suc n - 1 ≡ n
minus_one n = omega arith

ltb-suc : (n : ℕ) → ltb n (suc n) ≡ true
ltb-suc n = ground arith

run_all-silence :
    {P S : Type 0} (xs : List (EventHandler P S)) (h : EventHandler P S) (event : Text)
    (payload : P) (s : S)
    → run_all (silence (length (xs ++ (h ∷ [])) - 1) (xs ++ (h ∷ []))) event payload s
      ≡ run_all xs event payload s
unfolding silence
run_all-silence xs h event payload s =
    rw (length-snoc xs h, minus_one (length xs), ltb-suc (length xs), replace_at-snoc xs h no_op)
      (run_all-append xs (no_op ∷ []) event payload s)

module _ {P S : Type 0} (event : Text) (handler : EventHandler P S) (bus : EventBus P S) where
  -- An event is given to a new subscriber after all that were there, and other events are not.
  emit-subscribe :
      (j : Text) (payload : P) (s : S)
      → emit j payload (subscribe event handler bus).0 s ≡ (
          let before = emit j payload bus s in
          if text_eq event j then handler j payload before else before)
  unfolding emit subscribe
  emit-subscribe j payload s = elim (Bool-cases (text_eq event j)) [
    | inl same ↦
        rw
          (
            lookup-insert event j (unwrap_or (lookup event bus) [] ++ (handler ∷ [])) bus,
            same,
            (text_eq_iff event j).0 same,
          )
          (run_all-append (unwrap_or (lookup j bus) []) (handler ∷ []) j payload s)
    | inr other ↦
        rw (lookup-insert event j (unwrap_or (lookup event bus) [] ++ (handler ∷ [])) bus, other)
          refl
  ]

  -- A subscription that is cancelled by its id leaves every event as it was before it.
  emit-unsubscribe :
      (j : Text) (payload : P) (s : S)
      → (let (subscribed, id) = subscribe event handler bus in
          emit j payload (unsubscribe event id subscribed) s)
        ≡ emit j payload bus s
  unfolding emit subscribe unsubscribe
  emit-unsubscribe j payload s =
      let list = unwrap_or (lookup event bus) [] ++ (handler ∷ []) in
      elim (Bool-cases (text_eq event j)) [
        | inl same ↦
            rw
              (
                lookup-modify event j (silence (length list - 1)) (insert event list bus),
                lookup-insert event j list bus,
                same,
                (text_eq_iff event j).0 same,
              )
              (run_all-silence (unwrap_or (lookup j bus) []) handler j payload s)
        | inr other ↦
            rw
              (
                lookup-modify event j (silence (length list - 1)) (insert event list bus),
                lookup-insert event j list bus,
                other,
              )
              refl
      ]
