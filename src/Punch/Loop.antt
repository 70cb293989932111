-- ===== src/Punch/Loop.antt =====
-- crates/punch/src/punch.rs: the loop of `punch` at any point of its events.
use aipowergateway.Prelude.{
  Option, ℕ, zero, suc, ◌≡◌, refl, sym, ◌∙◌, ap, subst, inl, inr, Bool, true, false, not, ◌||◌,
  List, [], ◌∷◌, ◌++◌, if◌then◌else◌, length, is_nil, All, All-append, IsMember, IsMember-append,
  Result, ok, err, ok_inj, arith,
}
use mathlib.Core.List.{append_assoc, append-nil}
use aipowergateway.Prelude.Text.{Text, text_eq}
use aipowergateway.Link.Crypto.{Bytes}
use aipowergateway.Punch.{
  to_socket_addr, Error, Candidate, PunchOptions, Event, ticked, received, recv_failed, PunchSocket,
  probe_frame, is_aipg, send_each, send_rounds, give_up, echo, punch_loop, probes,
}

-- The first datagram comes after ticks of the timer alone, and it is from `source`.
pub data Hears {Addr : Type 0} (source : Addr) : List (Event Addr) → Type 0 where
  heard :
      {bytes : Bytes} {taken : Bool} {events : List (Event Addr)}
      → Hears source (received bytes source taken ∷ events)
  waits :
      {tag : Bytes} {answers : ℕ → ℕ → Bool × Bool} {events : List (Event Addr)}
      → Hears source events
      → Hears source (ticked tag answers ∷ events)

-- A tick whose tag is of eight bytes.
abbrev pub IsProbe : {Addr : Type 0} → Event Addr → Type 0
IsProbe (ticked tag answers) = length tag ≡ 8
IsProbe (received bytes source taken) = ⊥
IsProbe recv_failed = ⊥

abbrev pub IsAipg : {Addr : Type 0} → Addr × Bytes → Type 0
IsAipg d = is_aipg d.1 ≡ true

probe_frame-is_aipg : (tag : Bytes) → length tag ≡ 8 → is_aipg (probe_frame tag) ≡ true
unfolding is_aipg text_eq
probe_frame-is_aipg tag h = ground arith

not_nil-append :
    {A : Type 0} (xs ys : List A) → not (is_nil (xs ++ ys)) ≡ not (is_nil xs) || not (is_nil ys)
not_nil-append [] ys = refl
not_nil-append (x ∷ xs) ys = refl

err_inj : {A E : Type 0} {x y : E} → Path (Result A E) (err x) (err y) → x ≡ y
err_inj p = cc

or_assoc : (a b c : Bool) → (a || b) || c ≡ a || (b || c)
or_assoc true b c = refl
or_assoc false b c = refl

or_false : (a : Bool) → a || false ≡ a
or_false true = refl
or_false false = refl

All-choice :
    {A : Type 0} (P : A → Type 0) (b : Bool) (xs ys : List A)
    → All P xs
    → All P ys
    → All P (if b then xs else ys)
All-choice P true xs ys h k = h
All-choice P false xs ys h k = k

module _ {Addr : Type 0} (parse_addr : Text → Option Addr) (unspecified : ℕ → Addr)
    (describe : List Candidate → Text) (peers : List Candidate) (opts : PunchOptions) where
  pub hears-punch :
      (events : List (Event Addr)) (sent_any : Bool) (s : PunchSocket Addr) (source : Addr)
      → (punch_loop parse_addr unspecified describe peers opts events sent_any s).0 ≡ ok source
      → Hears source events
  unfolding punch_loop
  hears-punch [] sent_any s source h = cc
  hears-punch (recv_failed ∷ events) sent_any s source h = cc
  hears-punch (received bytes from taken ∷ events) sent_any s source h =
      subst (λ (x : Addr). Hears source (received bytes x taken ∷ events)) (sym (ok_inj h)) heard
  hears-punch (ticked tag answers ∷ events) sent_any s source h =
      let sent = probes parse_addr unspecified describe peers opts tag answers in
      waits (
        hears-punch events (sent_any || not (is_nil sent)) (record s { sent = s.sent ++ sent })
          source h)

  pub punch-hears :
      (source : Addr) (events : List (Event Addr)) (sent_any : Bool) (s : PunchSocket Addr)
      → Hears source events
      → (punch_loop parse_addr unspecified describe peers opts events sent_any s).0 ≡ ok source
  unfolding punch_loop
  punch-hears source events sent_any s heard = refl
  punch-hears source (ticked tag answers ∷ events) sent_any s (waits h) =
      let sent = probes parse_addr unspecified describe peers opts tag answers in
      punch-hears source events (sent_any || not (is_nil sent)) (record s { sent = s.sent ++ sent })
        h

  pub gives_up :
      (events : List (Event Addr)) (sent_any : Bool) (s : PunchSocket Addr) (e : Error)
      → (punch_loop parse_addr unspecified describe peers opts events sent_any s).0 ≡ err e
      → (new : List (Addr × Bytes)) × ((punch_loop parse_addr unspecified describe peers opts events
            sent_any s).1.sent
          ≡ s.sent ++ new)
        × (e ≡ give_up parse_addr unspecified describe peers opts (sent_any || not (is_nil new)))
  unfolding punch_loop
  gives_up [] sent_any s e h = (
    [],
    sym (append-nil s.sent),
    sym (err_inj h)
        ∙ ap (λ b. give_up parse_addr unspecified describe peers opts b) (sym (or_false sent_any)),
  )
  gives_up (recv_failed ∷ events) sent_any s e h = (
    [],
    sym (append-nil s.sent),
    sym (err_inj h)
        ∙ ap (λ b. give_up parse_addr unspecified describe peers opts b) (sym (or_false sent_any)),
  )
  gives_up (received bytes from taken ∷ events) sent_any s e h = cc
  gives_up (ticked tag answers ∷ events) sent_any s e h =
      let sent = probes parse_addr unspecified describe peers opts tag answers in
      let (new, same, because) =
        gives_up events (sent_any || not (is_nil sent)) (record s { sent = s.sent ++ sent }) e h in
      (
        sent ++ new,
        same ∙ append_assoc s.sent sent new,
        because
            ∙ ap (λ b. give_up parse_addr unspecified describe peers opts b)
                (or_assoc sent_any (not (is_nil sent)) (not (is_nil new))
                  ∙ ap (λ b. sent_any || b) (sym (not_nil-append sent new))),
      )

  send_each-IsAipg :
      (frame : Bytes) (answers : ℕ → Bool × Bool) (i : ℕ) (cs : List Candidate)
      → is_aipg frame ≡ true
      → All IsAipg (send_each parse_addr unspecified describe peers opts frame answers i cs)
  unfolding send_each
  send_each-IsAipg frame answers i [] h = tt
  send_each-IsAipg frame answers i (c ∷ cs) h =
      let rest = send_each-IsAipg frame answers (suc i) cs h in
      All-append IsAipg
        (if (answers i).0 then (to_socket_addr parse_addr unspecified c, frame) ∷ [] else [])
        (if (answers i).1
          then []
          else send_each parse_addr unspecified describe peers opts frame answers (suc i) cs)
        (All-choice IsAipg (answers i).0 ((to_socket_addr parse_addr unspecified c, frame) ∷ []) []
          (h, tt) tt)
        (All-choice IsAipg (answers i).1 []
          (send_each parse_addr unspecified describe peers opts frame answers (suc i) cs) tt rest)

  send_rounds-IsAipg :
      (frame : Bytes) (answers : ℕ → ℕ → Bool × Bool) (n : ℕ)
      → is_aipg frame ≡ true
      → All IsAipg (send_rounds parse_addr unspecified describe peers opts frame answers n)
  unfolding send_rounds
  send_rounds-IsAipg frame answers zero h = tt
  send_rounds-IsAipg frame answers (suc n) h =
      All-append IsAipg
        (send_each parse_addr unspecified describe peers opts frame (answers n) 0 peers)
        (send_rounds parse_addr unspecified describe peers opts frame answers n)
        (send_each-IsAipg frame (answers n) 0 peers h) (send_rounds-IsAipg frame answers n h)

  -- The ticks of a call send frames of the protocol, and nothing else.
  pub punch_loop-IsAipg :
      (events : List (Event Addr)) (sent_any : Bool) (s : PunchSocket Addr)
      → All IsProbe events
      → All IsAipg s.sent
      → All IsAipg (punch_loop parse_addr unspecified describe peers opts events sent_any s).1.sent
  unfolding punch_loop
  punch_loop-IsAipg [] sent_any s ticks h = h
  punch_loop-IsAipg (recv_failed ∷ events) sent_any s (t, ticks) h = absurd t
  punch_loop-IsAipg (received bytes from taken ∷ events) sent_any s (t, ticks) h = absurd t
  punch_loop-IsAipg (ticked tag answers ∷ events) sent_any s (t, ticks) h =
      let sent = probes parse_addr unspecified describe peers opts tag answers in
      punch_loop-IsAipg events (sent_any || not (is_nil sent)) (record s { sent = s.sent ++ sent })
        ticks
        (All-append IsAipg s.sent sent h (
          send_rounds-IsAipg (probe_frame tag) answers opts.probes_per_round
            (probe_frame-is_aipg tag t)))

  -- A frame that is heard after ticks is sent back to its source.
  pub punch_loop-echo :
      (ticks later : List (Event Addr)) (frame : Bytes) (source : Addr) (sent_any : Bool)
      (s : PunchSocket Addr)
      → All IsProbe ticks
      → is_aipg frame ≡ true
      → IsMember
          (source, frame)
          (punch_loop parse_addr unspecified describe peers opts
            (ticks ++ (received frame source true ∷ later))
            sent_any
            s).1.sent
  unfolding punch_loop echo
  punch_loop-echo [] later frame source sent_any s ticks h =
      rw h ((IsMember-append (source, frame) s.sent ((source, frame) ∷ [])).1 (inr (inl refl)))
  punch_loop-echo (recv_failed ∷ events) later frame source sent_any s (t, ticks) h = absurd t
  punch_loop-echo (received bytes from taken ∷ events) later frame source sent_any s (t, ticks) h =
      absurd t
  punch_loop-echo (ticked tag answers ∷ events) later frame source sent_any s (t, ticks) h =
      let sent = probes parse_addr unspecified describe peers opts tag answers in
      punch_loop-echo events later frame source (sent_any || not (is_nil sent))
        (record s { sent = s.sent ++ sent }) ticks h

pub Hears-append :
    {Addr : Type 0} (ticks later : List (Event Addr)) (source : Addr)
    → All IsProbe ticks
    → Hears source later
    → Hears source (ticks ++ later)
Hears-append [] later source ticks h = h
Hears-append (recv_failed ∷ events) later source (t, ticks) h = absurd t
Hears-append (received bytes from taken ∷ events) later source (t, ticks) h = absurd t
Hears-append (ticked tag answers ∷ events) later source (t, ticks) h =
    waits (Hears-append events later source ticks h)
