-- ===== src/Component.antt =====
-- src/component/mod.rs: the declarative data that the executor interprets.
pub mod Types
pub mod Helpers
pub mod Service
pub mod Spec
pub mod Definitions
