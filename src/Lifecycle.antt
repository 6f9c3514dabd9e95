-- ===== src/Lifecycle.antt =====
-- examples/mailbox_lifecycle.rs: a storage and a server in memory, and a story told over them.
pub mod Table
pub mod Order
pub mod Storage
pub mod Remote
pub mod Story
pub mod Kept
