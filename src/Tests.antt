-- ===== src/Tests.antt =====
-- Runs of the definitions, and the theorems at concrete inputs.
mod Models
mod Crypto
mod Signature
mod Keys
mod Operations
mod Writing
mod Inspect
mod Pairs
mod Generated
mod Signing
mod Rekeyed
mod Stored
mod Asked
mod Verified
mod Remembered
