-- ===== src/Punch/Meeting.antt =====
-- crates/punch/src/punch.rs: when `punch` finds the other side, how it gives up, and two sides that
-- reach each other.
use aipowergateway.Prelude.{
  ℕ, Option, ◌≡◌, ◌↔◌, Bool, true, false, not, none, List, [], ◌∷◌, ◌++◌, is_nil, All, All-member,
  IsMember, ok, err,
}
use aipowergateway.Prelude.Text.{Text}
use aipowergateway.Link.Crypto.{Bytes}
use aipowergateway.Punch.{
  Error, Candidate, PunchOptions, Event, received, PunchSocket, give_up, punch, punch_loop,
}
use aipowergateway.Punch.Loop.{
  Hears, heard, IsProbe, IsAipg, hears-punch, punch-hears, gives_up, punch_loop-IsAipg,
  punch_loop-echo, Hears-append,
}

abbrev pub fresh : {Addr : Type 0} → PunchSocket Addr
fresh = record { sent = []; peer_seen = none }

module _ {Addr : Type 0} (parse_addr : Text → Option Addr) (unspecified : ℕ → Addr)
    (describe : List Candidate → Text) where
  -- A punch on a socket whose handle is obtained ends with an address exactly if a datagram comes
  -- before the deadline and any failed read, and the address is the source of the first one, whatever
  -- the datagram holds.
  pub punch-Hears :
      (peers : List Candidate) (opts : PunchOptions) (events : List (Event Addr))
      (s : PunchSocket Addr) (source : Addr)
      → ((punch parse_addr unspecified describe peers opts none events s).0 ≡ ok source)
        ↔ Hears source events
  unfolding punch
  punch-Hears peers opts events s source = (
    hears-punch parse_addr unspecified describe peers opts events false s source,
    punch-hears parse_addr unspecified describe peers opts source events false s,
  )

  -- A punch that fails though its handle is obtained has heard nobody, and its error tells whether a probe of this call
  -- went out: it is that of unreachable candidates exactly if none did, else that of the deadline.
  punch-err :
      (peers : List Candidate) (opts : PunchOptions) (events : List (Event Addr))
      (s : PunchSocket Addr) (e : Error)
      → (punch parse_addr unspecified describe peers opts none events s).0 ≡ err e
      → ((source : Addr) → ¬ Hears source events)
        × ((new : List (Addr × Bytes)) × ((punch parse_addr unspecified describe peers opts none
                events s).1.sent
              ≡ s.sent ++ new)
            × (e ≡ give_up parse_addr unspecified describe peers opts (not (is_nil new))))
  unfolding punch
  punch-err peers opts events s e h = (
    λ source hears.
        let found =
          punch-hears parse_addr unspecified describe peers opts source events false s hears in
        cc,
    gives_up parse_addr unspecified describe peers opts events false s e h,
  )

  -- Two sides whose handles are obtained meet. If the first datagram that one side hears, after ticks
  -- of its timer, is a frame that the other, on a new socket, sent to it from `a` in ticks of its own,
  -- all tags being of eight bytes, and the echo is taken, then it ends with `a` and has sent the frame
  -- back to `a`; and the other, if that echo from `b` is the first datagram it hears, ends with `b`.
  pub punch-punch :
      (peers_a peers_b : List Candidate) (opts_a opts_b : PunchOptions) (a b : Addr) (frame : Bytes)
      (taken : Bool) (ticks_a ticks_b later_a later_b : List (Event Addr)) (s : PunchSocket Addr)
      → All IsProbe ticks_a
      → All IsProbe ticks_b
      → IsMember
          (b, frame)
          (punch parse_addr unspecified describe peers_a opts_a none ticks_a fresh).1.sent
      → ((punch parse_addr unspecified describe peers_b opts_b none
            (ticks_b ++ (received frame a true ∷ later_b))
            s).0
          ≡ ok a)
        × IsMember
            (a, frame)
            (punch parse_addr unspecified describe peers_b opts_b none
              (ticks_b ++ (received frame a true ∷ later_b))
              s).1.sent
        × ((punch parse_addr unspecified describe peers_a opts_a none
              (ticks_a ++ (received frame b taken ∷ later_a))
              fresh).0
            ≡ ok b)
  unfolding punch
  punch-punch peers_a peers_b opts_a opts_b a b frame taken ticks_a ticks_b later_a later_b s
        probes_a probes_b sent =
      let aipg =
        punch_loop-IsAipg parse_addr unspecified describe peers_a opts_a ticks_a false fresh
          probes_a tt in
      (
        punch-hears parse_addr unspecified describe peers_b opts_b a
            (ticks_b ++ (received frame a true ∷ later_b)) false s
            (Hears-append ticks_b (received frame a true ∷ later_b) a probes_b heard),
        punch_loop-echo parse_addr unspecified describe peers_b opts_b ticks_b later_b frame a false
            s probes_b
            (All-member IsAipg
              (punch_loop parse_addr unspecified describe peers_a opts_a ticks_a false fresh).1.sent
              (b, frame) aipg sent),
        punch-hears parse_addr unspecified describe peers_a opts_a b
            (ticks_a ++ (received frame b taken ∷ later_a)) false fresh
            (Hears-append ticks_a (received frame b taken ∷ later_a) b probes_a heard),
      )
