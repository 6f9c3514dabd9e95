-- ===== src/Rekey.antt =====
-- src/rekey.rs: a collection rebuilt onto a new handle space.
pub mod Rows
pub mod Rebuild
pub mod Run
pub mod Ends
pub mod Handles
pub mod Edits
pub mod Left
pub mod Carried
pub mod Kept
pub mod Survival
pub mod Merges
