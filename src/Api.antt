-- ===== src/Api.antt =====
-- crates/lan-share/src/api.rs: the HTTP handlers as functions of the request and the shared state. The
-- clock, the upstream call (`Backend::chat`), the disks and the lower-case table are arguments; the
-- text of a served response (JSON or SSE) is not modelled, its content is.
mod State
pub mod Chat
pub mod Messages
pub mod Control
mod Tests
pub use State.*
unfoldable pub use State.{bearer_token, extract_openai_usage, prepare_openai_upstream, enter}
