-- ===== src/Link/Discovery/Announced.antt =====
-- What an announcement leaves in the list of leaders.
use aipowergateway.Prelude.{
  ℕ, ◌<◌, ◌^◌, ◌≡◌, refl, inl, inr, true, false, Option, some, ltb, ◌==◌, if◌then◌else◌, arith,
  Bool-cases, unwrap_or, is_nil,
}
use aipowergateway.Prelude.Text.{Text, text, text_eq, trim}
use aipowergateway.Prelude.Map.{lookup, lookup-insert_self}
use aipowergateway.Json.{Value, get_field}
use aipowergateway.Link.Discovery.{
  LeaderInfo, DiscoveryClient, BroadcastConfig, announcement, at_port, link_base, id,
  handle_announce, positive, as_u16,
}

-- An announcement that arrives as it was sent, by a leader with a name and ports of sixteen bits
-- of which the first is not zero: the leader is listed with its name, and is reached at the
-- announced sharing port, or at the port of its API where that one is zero.
pub handle_announce-announcement :
    (parse_json : Text → Option Value) (cfg : BroadcastConfig) (message address : Text) (now : ℕ)
    (d : DiscoveryClient)
    → text_eq (trim message) (text "AIPG_PING") ≡ false
    → parse_json (trim message) ≡ some (announcement cfg)
    → is_nil cfg.name ≡ false
    → 0 < cfg.api_port
    → cfg.api_port < 2 ^ 16
    → cfg.share_port < 2 ^ 16
    → (l : LeaderInfo) × (lookup (id l) (handle_announce parse_json message address now d).leaders
        ≡ some l)
      × (l.name ≡ cfg.name)
      × (l.last_seen ≡ now)
      × (link_base l
          ≡ at_port address (if ltb 0 cfg.share_port then cfg.share_port else cfg.api_port))
unfolding handle_announce announcement link_base get_field text_eq
handle_announce-announcement parse_json cfg message address now d ping parsed named some_port api
      share =
    let small : as_u16 cfg.api_port ≡ cfg.api_port = omega arith in
    let shared : as_u16 cfg.share_port ≡ cfg.share_port = omega arith in
    let open_port : (as_u16 cfg.api_port == 0) ≡ false = ground arith in
    (
      record {
        name = cfg.name;
        api_port = as_u16 cfg.api_port;
        share_port = positive (some (as_u16 cfg.share_port));
        fingerprint = cfg.fingerprint;
        address = address;
        last_seen = now;
        online = true;
      },
      rw (ping, parsed, named, handle_announce, open_port) (lookup-insert_self _ _ d.leaders),
      refl,
      refl,
      ports cfg.api_port (as_u16 cfg.api_port) cfg.share_port (as_u16 cfg.share_port) small shared,
    )
  where
    ports :
        (a a' s s' : ℕ)
        → a' ≡ a
        → s' ≡ s
        → at_port address (unwrap_or (positive (positive (some s'))) a')
          ≡ at_port address (if ltb 0 s then s else a)
    ports a a' s s' e k = elim (Bool-cases (ltb 0 s)) [
      | inl b ↦ rw (e, k, b) (rw (b) refl)
      | inr b ↦ rw (e, k, b) refl
    ]
