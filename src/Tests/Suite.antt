-- ===== src/Tests/Suite.antt =====
-- The unit tests of crates/optibridge-protocol/src/lib.rs and of firmware/optibridge/src/map_helpers.rs,
-- run on the model.
mod Runs
mod Parsing
mod Dispatching
mod Flash
mod Loading
mod Starting
mod Maps
mod Entries
