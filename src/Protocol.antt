-- ===== src/Protocol.antt =====
-- The two protocols of the gateway: crates/lan-share/src/api.rs turns requests and responses of the
-- one into those of the other and replays a response as a stream, crates/lan-share/src/backend.rs
-- puts a stream back together. The text of a JSON value is what serde prints and reads.
pub mod Choice
pub mod Anthropic
pub mod Stream
pub mod Assemble
pub mod Lines
pub mod Kept
pub mod Replayed
pub mod Tools
mod Tests
use aipowergateway.Prelude.{Option, none, some, List, [], ◌∷◌}
use aipowergateway.Prelude.Text.{Text}
use aipowergateway.Json.{Value, Fields, obj, field, end}

abbrev pub fields : List (Text × Value) → Fields
fields [] = end
fields ((k, v) ∷ kvs) = field k v (fields kvs)

-- `json!({ … })`
abbrev pub object : List (Text × Value) → Value
object kvs = obj (fields kvs)

-- `Value::to_string` and `serde_json::from_str`.
pub record Json : Type 0 where
  pub print : Value → Text
  pub parse : Text → Option Value
