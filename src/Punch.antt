-- ===== src/Punch.antt =====
-- crates/punch/src/candidate.rs and punch.rs: the candidates of a side and the loop that sends
-- probes to the candidates of the other until a datagram arrives. The sockets are not modelled; a
-- schedule of events stands for what they and the timers do.
pub mod Loop
pub mod Meeting
mod Tests
use aipowergateway.Prelude.{
  ℕ, zero, suc, ◌/◌, Bool, true, false, not, Option, none, some, List, [], ◌∷◌, ◌++◌, ◌&&◌, ◌||◌,
  ◌==◌, leb, if◌then◌else◌, is_nil, length, take, unwrap_or, ◌>>=◌, Result, ok, err,
}
use aipowergateway.Prelude.Text.{Text, text, text_eq, decimal}
use aipowergateway.Json.{Value, get_str, get_u64}
use aipowergateway.Link.Discovery.{as_u16}
use aipowergateway.Link.Crypto.{Bytes}

pub data Error : Type 0 where
  punch_failed timeout io quic cert : Text → Error

pub data CandidateKind : Type 0 where
  local mapped : CandidateKind

pub record Candidate : Type 0 where
  pub ip : Text
  pub port : ℕ
  pub kind : CandidateKind

-- The address of the route to a probed server, if there is one, and whether it is a loopback or an
-- unspecified one. The first that is neither is taken.
abbrev outbound : List (Option (Text × Bool)) → List Text
outbound [] = []
outbound (none ∷ probes) = outbound probes
outbound (some (ip, excluded) ∷ probes) = if excluded then outbound probes else ip ∷ []

abbrev pub candidates_at : ℕ → List Text → List Candidate
candidates_at port [] = record { ip = text "127.0.0.1"; port = port; kind = local } ∷ []
candidates_at port (ip ∷ ips) =
    record { ip = ip; port = port; kind = local } ∷ candidates_at port ips

unfoldable pub local_candidates : List (Option (Text × Bool)) → ℕ → List Candidate
local_candidates probes port = candidates_at port (outbound probes)

abbrev frame_magic : Bytes
frame_magic = text "AIPG"

abbrev frame_probe : ℕ
frame_probe = 1

abbrev frame_header_len : ℕ
frame_header_len = 13

-- The tag is eight random bytes.
abbrev pub probe_frame : Bytes → Bytes
probe_frame tag = frame_magic ++ (frame_probe ∷ tag)

unfoldable pub is_aipg : Bytes → Bool
unfolding text_eq
is_aipg bytes = leb frame_header_len (length bytes) && text_eq (take 4 bytes) frame_magic

-- `timeout` in milliseconds; the interval only decides when the timer ticks.
pub record PunchOptions : Type 0 where
  pub timeout : ℕ
  pub probe_interval : ℕ
  pub probes_per_round : ℕ

abbrev pub default_options : PunchOptions
default_options = record { timeout = 10000; probe_interval = 100; probes_per_round = 1 }

-- `SocketAddr`, its reading, and the address 0.0.0.0 at a port.
module _ {Addr : Type 0} (parse_addr : Text → Option Addr) (unspecified : ℕ → Addr) where
  unfoldable pub to_socket_addr : Candidate → Addr
  unfolding decimal
  to_socket_addr c =
      unwrap_or (parse_addr (c.ip ++ (text ":" ++ decimal c.port))) (unspecified c.port)

module _ (parse_json : Bytes → Option Value) where
  is_mapped : Value → Bool
  unfolding text_eq
  is_mapped v = elim (get_str (text "type") v) [
    | none ↦ false
    | some kind ↦ text_eq kind (text "mapped")
  ]

  read_mapped : Value → Result Candidate Error
  read_mapped v = elim (get_str (text "ip") v) [
    | none ↦ err (punch_failed (text "STUN 响应缺 ip"))
    | some ip ↦ elim (get_u64 (text "port") v) [
      | none ↦ err (punch_failed (text "STUN 响应缺 port"))
      | some port ↦ ok (record { ip = ip; port = as_u16 port; kind = mapped })
    ]
  ]

  -- What `recv_from` gives until the deadline.
  unfoldable pub await_echo : Text → List (Result Bytes Text) → Result Candidate Error
  unfolding is_mapped read_mapped
  await_echo server [] = err (timeout (text "STUN 回显超时: " ++ server))
  await_echo server (err e ∷ replies) = err (io e)
  await_echo server (ok bytes ∷ replies) =
      let rest = await_echo server replies in
      elim (parse_json bytes) [ none ↦ rest | some v ↦ if is_mapped v then read_mapped v else rest ]

  -- `failure` is the error of the handle or of the request, if one fails.
  unfoldable pub stun_mapped_candidate :
      {Addr : Type 0}
      → (Text → Option Addr)
      → Text
      → Option Text
      → List (Result Bytes Text)
      → Result Candidate Error
  unfolding await_echo
  stun_mapped_candidate parse_addr server failure replies = elim (parse_addr server) [
    | none ↦ err (punch_failed (text "STUN 地址无效: " ++ server))
    | some addr ↦ elim failure [ none ↦ await_echo server replies | some e ↦ err (io e) ]
  ]

-- What happens to the loop next. A tick has the tag of its frame, and for each probe, by its round
-- (counted down) and its candidate, whether `send_to` took it and whether the deadline had passed
-- then. A datagram has the bytes that were read, its source, and whether the echo would be taken.
pub data Event (Addr : Type 0) : Type 0 where
  ticked : Bytes → (ℕ → ℕ → Bool × Bool) → Event Addr
  received : Bytes → Addr → Bool → Event Addr
  recv_failed : Event Addr

-- What `send_to` took so far, and the source of the peer.
pub record PunchSocket (Addr : Type 0) : Type 0 where
  pub sent : List (Addr × Bytes)
  pub peer_seen : Option Addr

module _ {Addr : Type 0} (parse_addr : Text → Option Addr) (unspecified : ℕ → Addr)
    (describe : List Candidate → Text) (peers : List Candidate) (opts : PunchOptions) where
  unfoldable pub send_each : Bytes → (ℕ → Bool × Bool) → ℕ → List Candidate → List (Addr × Bytes)
  send_each frame answers i [] = []
  send_each frame answers i (c ∷ cs) =
      let rest = send_each frame answers (suc i) cs in
      let here =
        if (answers i).0 then (to_socket_addr parse_addr unspecified c, frame) ∷ [] else [] in
      here ++ (if (answers i).1 then [] else rest)

  unfoldable pub send_rounds : Bytes → (ℕ → ℕ → Bool × Bool) → ℕ → List (Addr × Bytes)
  unfolding send_each
  send_rounds frame answers zero = []
  send_rounds frame answers (suc n) =
      send_each frame (answers n) 0 peers ++ send_rounds frame answers n

  -- What one tick sends.
  abbrev pub probes : Bytes → (ℕ → ℕ → Bool × Bool) → List (Addr × Bytes)
  probes tag answers = send_rounds (probe_frame tag) answers opts.probes_per_round

  unfoldable pub give_up : Bool → Error
  unfolding decimal
  give_up sent_any =
      if not sent_any
      then punch_failed (text "无法发送任何探测包（候选不可达）")
      else timeout (
          text "在 "
          ++ (decimal (opts.timeout / 1000)
              ++ (text "s 内未与对端候选 " ++ (describe peers ++ text " 打通（跨网直连失败）"))))

  unfoldable pub echo : Bytes → Addr → Bool → List (Addr × Bytes)
  unfolding is_aipg
  echo bytes source taken = if is_aipg bytes && taken then (source, bytes) ∷ [] else []

  -- The events of one call; the deadline comes after the last one.
  unfoldable pub punch_loop :
      List (Event Addr) → Bool → PunchSocket Addr → Result Addr Error × PunchSocket Addr
  unfolding send_rounds give_up echo
  punch_loop [] sent_any s = (err (give_up sent_any), s)
  punch_loop (recv_failed ∷ events) sent_any s = (err (give_up sent_any), s)
  punch_loop (received bytes source taken ∷ events) sent_any s =
      (ok source, record { sent = s.sent ++ echo bytes source taken; peer_seen = some source })
  punch_loop (ticked tag answers ∷ events) sent_any s =
      let sent = probes tag answers in
      punch_loop events (sent_any || not (is_nil sent)) (record s { sent = s.sent ++ sent })

  -- `failure` is the error of `tokio_handle`, if it fails.
  unfoldable pub punch :
      Option Text → List (Event Addr) → PunchSocket Addr → Result Addr Error × PunchSocket Addr
  unfolding punch_loop
  punch (some e) events s = (err (io e), s)
  punch none events s = punch_loop events false s
