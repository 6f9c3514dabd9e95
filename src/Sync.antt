-- ===== src/Sync.antt =====
-- src/sync.rs: the verb that reconciles a collection with its remote.
pub mod Options
pub mod Engine
pub mod Rows
pub mod Content
pub mod Markers
pub mod Merge
pub mod Join
pub mod Answers
pub mod Run
