-- ===== src/Hub.antt =====
-- src/hub.rs: one item shared by several sources, with a base for each.
pub mod Items
pub mod Project
pub mod Absorb
pub mod Tables
pub mod Order
pub mod Views
pub mod RoundTrip
pub mod Propagation
pub mod Deletes
