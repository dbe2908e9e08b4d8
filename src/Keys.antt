-- ===== src/Keys.antt =====
-- rs/src/keys.rs: public keys, secret keys, and the encryption of secret keys.
pub mod Pubkey
pub mod Seckey
pub mod Sealing
