-- ===== src/Upgrade.antt =====
-- src/upgrade.rs: placements raised to a higher level of detail.
pub mod Machine
pub mod Fetched
pub mod Run
pub mod Written
pub mod Identity
pub mod Claimed
pub mod Unique
pub mod Pull
pub mod Bounded
pub mod Order
pub mod Ends
pub mod Quiet
pub mod Progress
