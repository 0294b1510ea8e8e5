-- ===== src/Ds.antt =====
-- src/ds: the state of the driver station, its tasks, and the interface that it offers.
pub mod Mode
pub mod Joystick
pub mod SendState
pub mod Backoff
pub mod State
pub mod Signal
pub mod Conn
pub mod DriverStation
pub mod System
