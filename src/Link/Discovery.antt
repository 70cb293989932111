-- ===== src/Link/Discovery.antt =====
-- crates/lan-client/src/discovery.rs and the announcement of crates/lan-share/src/broadcast.rs: the
-- leaders that a member has heard. The sockets and the loops around them are not modelled.
pub mod Announced
use aipowergateway.Prelude.{
  ℕ, ◌+◌, ◌-◌, ◌%◌, ◌^◌, Bool, true, false, not, Option, none, some, List, [], ◌∷◌, ◌++◌, ◌==◌,
  ◌&&◌, ◌||◌, leb, ltb, if◌then◌else◌, map, is_nil, unwrap_or, ◌>>=◌,
}
use mathlib.Core.Option
use aipowergateway.Prelude.Text.{Text, text, text_eq, text_le, trim, decimal}
use aipowergateway.Prelude.Map.{Map, insert, values}
use aipowergateway.Prelude.Sort.{sort_by}
use aipowergateway.Json.{Value, obj, field, end, str, unsigned, get, get_str, get_u64, as_str}

pub record LeaderInfo : Type 0 where
  pub name : Text
  pub api_port : ℕ
  pub share_port : Option ℕ
  pub fingerprint : Text
  pub address : Text
  pub last_seen : ℕ
  pub online : Bool

abbrev pub at_port : Text → ℕ → Text
at_port address port = text "http://" ++ (address ++ (text ":" ++ decimal port))

-- `share_port.filter(|p| *p > 0)`
abbrev pub positive : Option ℕ → Option ℕ
positive none = none
positive (some p) = if ltb 0 p then some p else none

unfoldable pub api_base : LeaderInfo → Text
unfolding decimal
api_base l = at_port l.address l.api_port

unfoldable pub link_base : LeaderInfo → Text
unfolding decimal
link_base l = at_port l.address (unwrap_or (positive l.share_port) l.api_port)

unfoldable pub id : LeaderInfo → Text
unfolding decimal
id l = l.name ++ (text "@" ++ (l.address ++ (text ":" ++ decimal l.api_port)))

-- The threshold of the configuration, and the leaders by `id`.
pub record DiscoveryClient : Type 0 where
  pub online_threshold_secs : ℕ
  pub leaders : Map LeaderInfo

unfoldable pub new : ℕ → DiscoveryClient
new threshold = record { online_threshold_secs = threshold; leaders = [] }

-- `saturating_sub` is the subtraction of ℕ.
abbrev pub seen_at : ℕ → ℕ → LeaderInfo → LeaderInfo
seen_at now threshold l = record l { online = leb (now - l.last_seen) threshold }

unfoldable pub leaders : ℕ → DiscoveryClient → List LeaderInfo
unfolding id text_le sort_by
leaders now d =
    sort_by (λ a b. text_le (id a) (id b))
      (map (seen_at now d.online_threshold_secs) (values d.leaders))

-- `as u16`
abbrev pub as_u16 : ℕ → ℕ
as_u16 n = n % 2 ^ 16

-- What a leader broadcasts.
pub record BroadcastConfig : Type 0 where
  pub port : ℕ
  pub name : Text
  pub api_port : ℕ
  pub share_port : ℕ
  pub fingerprint : Text
  pub interval_secs : ℕ
  pub target : Text

unfoldable pub announcement : BroadcastConfig → Value
announcement cfg = obj (
    field (text "type") (str (text "AIPG_ANNOUNCE")) (
      field (text "name") (str cfg.name) (
        field (text "api_port") (unsigned cfg.api_port) (
          field (text "share_port") (unsigned cfg.share_port)
            (field (text "fingerprint") (str cfg.fingerprint) end)))))

-- `parse_json` is `serde_json::from_str`.
module _ (parse_json : Text → Option Value) where
  unfoldable pub handle_announce : Text → Text → ℕ → DiscoveryClient → DiscoveryClient
  unfolding text_eq trim id insert
  handle_announce message address now d =
      let trimmed = trim message in
      if text_eq trimmed (text "AIPG_PING") then d else elim (parse_json trimmed) [
        | none ↦ d
        | some parsed ↦
            if not (text_eq (unwrap_or (get_str (text "type") parsed) []) (text "AIPG_ANNOUNCE"))
            then d
            else let name = unwrap_or (get_str (text "name") parsed) [] in
              let api_port = as_u16 (unwrap_or (get_u64 (text "api_port") parsed) 0) in
              let info : LeaderInfo = record {
                name = name;
                api_port = api_port;
                share_port = positive (Option.map as_u16 (get_u64 (text "share_port") parsed));
                fingerprint = unwrap_or (get_str (text "fingerprint") parsed) [];
                address = address;
                last_seen = now;
                online = true;
              } in
              if is_nil name || (api_port == 0)
              then d
              else record d { leaders = insert (id info) info d.leaders }
      ]
