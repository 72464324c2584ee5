-- ===== src/Tests.antt =====
-- Runs of the model on the inputs of the repository's own tests, and instances of the theorems.
mod Frames
mod Boards
mod Loads
mod Storage
mod PowerCuts
mod Addresses
mod Targets
mod Terminals
mod Tools
mod Suite
