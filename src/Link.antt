-- ===== src/Link.antt =====
-- The link between two gateways: crates/link-crypto seals a body, crates/lan-share/src/link.rs
-- opens and seals on the side of the leader, crates/lan-client on the side of a member.
pub mod Crypto
pub mod Leader
pub mod Discovery
pub mod Member
pub mod Channel
pub mod Usage
mod Tests
