-- ===== src/Ops/Generate.antt =====
-- rs/src/ops/generate.rs: making a key pair and writing its two files together.
pub mod Pair
pub mod Steps
pub mod Created
pub mod Aside
pub mod Emptied
pub mod Committed
pub mod Overwritten
pub mod Lock
pub mod Make
