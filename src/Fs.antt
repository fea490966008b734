-- ===== src/Fs.antt =====
-- The part of `std::fs` and `std::path` that the program calls, over an explicit file system.
pub mod Path
pub mod Table
pub mod State
pub mod Walk
pub mod Ops
pub mod Copy
pub mod Removal
pub mod Kept
pub mod Extends
pub mod Links
pub mod ReadBack
