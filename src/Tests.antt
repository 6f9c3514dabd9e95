-- ===== src/Tests.antt =====
-- Runs of the model at concrete inputs, and the theorems at inputs that meet their hypotheses.
mod Data
mod Drivers
mod Hubs
mod Upgrades
mod Rekeys
mod Joins
mod Keys
mod Merges
mod Mutations
mod SyncRuns
mod Lifecycles
