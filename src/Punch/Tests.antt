-- ===== src/Punch/Tests.antt =====
-- The theorems on punching at two sides whose addresses are not read, so that the port is left.
use aipowergateway.Prelude.{
  ℕ, ◌≡◌, refl, ◌↔◌, true, false, Option, none, some, List, [], ◌∷◌, ◌++◌, inl, IsMember, ok,
}
use aipowergateway.Prelude.Text.{Text, text}
use aipowergateway.Json.{get_field, obj, str, unsigned, field, end}
use aipowergateway.Link.Crypto.{Bytes}
use aipowergateway.Punch.{
  Candidate, local, mapped, Event, ticked, received, probe_frame, local_candidates,
  stun_mapped_candidate, to_socket_addr, punch, default_options,
}
use aipowergateway.Punch.Loop.{Hears}
use aipowergateway.Punch.Meeting.{fresh, punch-Hears, punch-punch}

abbrev at : ℕ → Candidate
at port = record { ip = text "203.0.113.7"; port = port; kind = mapped }

abbrev unread : Text → Option ℕ
unread s = none

abbrev same : ℕ → ℕ
same port = port

abbrev describe : List Candidate → Text
describe cs = []

abbrev tag : Bytes
tag = 1 ∷ 2 ∷ 3 ∷ 4 ∷ 5 ∷ 6 ∷ 7 ∷ 8 ∷ []

-- Every probe is sent in time.
abbrev tick : Event ℕ
tick = ticked tag (λ round i. (true, false))

-- The side at port 10 probes the side at port 20 before it hears it.
probed :
    (punch unread same describe (at 20 ∷ []) default_options none (tick ∷ []) fresh).1.sent
    ≡ (20, probe_frame tag) ∷ []
unfolding punch to_socket_addr
probed = refl

local_candidates_run :
    local_candidates (none ∷ some (text "127.0.0.1", true) ∷ some (text "10.0.0.2", false) ∷ []) 7
    ≡ record { ip = text "10.0.0.2"; port = 7; kind = local }
      ∷ record { ip = text "127.0.0.1"; port = 7; kind = local }
      ∷ []
unfolding local_candidates
local_candidates_run = refl

-- A port that does not fit keeps its low bits.
stun_run :
    stun_mapped_candidate
      (λ bytes. some (
        obj (
          field (text "type") (str (text "mapped")) (
            field
              (text "ip")
              (str (text "203.0.113.7"))
              (field (text "port") (unsigned 65546) end)))))
      (λ s. some s)
      (text "relay:3478")
      none
      (ok [] ∷ [])
    ≡ ok (at 10)
unfolding stun_mapped_candidate get_field
stun_run = refl

punch-Hears_example :
    ((punch unread same describe
        (at 20 ∷ [])
        default_options
        none
        (tick ∷ received [] 20 true ∷ [])
        fresh).0
      ≡ ok 20)
    ↔ Hears 20 (tick ∷ received [] 20 true ∷ [])
punch-Hears_example =
    punch-Hears unread same describe (at 20 ∷ []) default_options (tick ∷ received [] 20 true ∷ [])
      fresh 20

punch-punch_example :
    ((punch unread same describe
        (at 10 ∷ [])
        default_options
        none
        ((tick ∷ []) ++ (received (probe_frame tag) 10 true ∷ []))
        fresh).0
      ≡ ok 10)
    × IsMember
        (10, probe_frame tag)
        (punch unread same describe
          (at 10 ∷ [])
          default_options
          none
          ((tick ∷ []) ++ (received (probe_frame tag) 10 true ∷ []))
          fresh).1.sent
    × ((punch unread same describe
          (at 20 ∷ [])
          default_options
          none
          ((tick ∷ []) ++ (received (probe_frame tag) 20 true ∷ []))
          fresh).0
        ≡ ok 20)
unfolding punch to_socket_addr
punch-punch_example =
    punch-punch unread same describe (at 20 ∷ []) (at 10 ∷ []) default_options default_options 10 20
      (probe_frame tag) true (tick ∷ []) (tick ∷ []) [] [] fresh (refl, tt) (refl, tt) (inl refl)
