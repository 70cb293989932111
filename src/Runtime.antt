-- ===== src/Runtime.antt =====
-- crates/runtime: the modules of the gateway, the order in which they are started, their
-- configuration and the roles that select them.
pub mod Error
pub mod Order
pub mod Config
pub mod Boot
pub mod Roles
pub mod I18n
pub mod Event
mod Tests
