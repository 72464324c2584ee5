-- ===== src/Firmware.antt =====
-- The firmware of the OptiBridge target, firmware/optibridge/src: the map helpers, the timer that
-- a BPF program schedules, packets and the main loop.
pub mod MapHelpers
pub mod Pointers
pub mod Timer
pub mod Events
