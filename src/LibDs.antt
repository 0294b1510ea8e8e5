-- ===== src/LibDs.antt =====
-- The crate libDS, an interface to the driver station for C.
pub mod Joysticks
pub mod Modes
pub mod Trace
pub mod Memory
pub mod Station
