-- ===== src/Component/Definitions.antt =====
-- src/component/definitions.rs, in its two halves.
mod Components
mod Services
pub use Components.*
pub use Services.*
