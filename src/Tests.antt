-- ===== src/Tests.antt =====
-- Runs of the code at concrete inputs, and instances of the theorems, over the reference crates.
pub mod Wire
pub mod Stream
pub mod States
pub mod Tasks
pub mod Sticks
pub mod Systems
pub mod Running
pub mod Links
pub mod Stations
