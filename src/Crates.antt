-- ===== src/Crates.antt =====
-- The third-party crates that the program calls: each is a record of the operations used, with what
-- their documentation says of them. The model takes such records as parameters.
mod Bytes
mod Flags
mod Float
pub mod Reference
pub use Bytes.*
pub use Flags.*
pub use Float.*
