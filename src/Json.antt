-- ===== src/Json.antt =====
-- `serde_json::Value`, with the accessors that the gateway calls.
mod Data
pub use Data.*
unfoldable pub use Data.{get_field, set_field, remove_field}
