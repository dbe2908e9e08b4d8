-- ===== src/Ops.antt =====
-- rs/src/ops: the operations on files.
pub mod Files
pub mod Writing
pub mod Verify
pub mod Sign
pub mod Inspect
pub mod Paths
pub mod Modes
pub mod Generate
pub mod Change
pub mod Recreate
