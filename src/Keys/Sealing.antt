-- ===== src/Keys/Sealing.antt =====
-- The encryption of a secret key under a password, of rs/src/keys.rs.
pub mod Blob
pub mod Opens
pub mod Stored
pub mod Reseals
use Prim.Native.Nat.{bit_xor}
use minisign_rs.Base.{
  ℕ, ◌+◌, Bool, true, false, not, Option, none, some, List, [], ◌∷◌, ◌++◌, if◌then◌else◌, slice,
  copy_into, replicate, Bytes, IsArray, list_eq,
}
use minisign_rs.Errors.{
  Error, Result, ok, err, ◌>>=◌, ◌>>◌, fail_if, other, key_not_encrypted, checksum_failed,
  password_required,
}
use minisign_rs.Crypto.{KeyNum, SecretKey, Primitives, derive_key_with_params}
use minisign_rs.Crypto.Kdf.{opslimit_memlimit_to_params, check_kdf_budget}
use minisign_rs.Keys.Pubkey.{sig_alg}
use minisign_rs.Keys.Seckey.{SeckeyStruct, get_unencrypted_secret_key}

abbrev pub encrypted_blob_size : ℕ
encrypted_blob_size = 104

-- `out[i] = a[i] ^ k[i]` for each index.
unfoldable pub xor_bytes : Bytes → Bytes → Bytes
xor_bytes [] k = []
xor_bytes (a ∷ as') [] = []
xor_bytes (a ∷ as') (k ∷ ks) = bit_xor a k ∷ xor_bytes as' ks

-- The three parts of a blob, copied into a zeroed array.
unfoldable pub fill_blob : Bytes → Bytes → Bytes → Bytes
fill_blob keynum secret_key checksum =
    copy_into 72 104 checksum
      (copy_into 8 72 secret_key (copy_into 0 8 keynum (replicate encrypted_blob_size 0)))

module _ (p : Primitives) where
  open p use {blake2b_256, scrypt_params}

  unfoldable pub compute_checksum : KeyNum → Bytes → Bytes
  compute_checksum keynum secret_key = blake2b_256 (
      copy_into 10 74 secret_key
        (copy_into 2 10 keynum.bytes (copy_into 0 2 sig_alg (replicate 74 0))))

  -- From the limits to the 104 bytes that the blob is combined with.
  unfoldable pub derive_blob_key : Bytes → Bytes → ℕ → ℕ → Result Bytes
  derive_blob_key password kdf_salt kdf_opslimit kdf_memlimit = do
    (log_n, r, q) ← opslimit_memlimit_to_params scrypt_params kdf_opslimit kdf_memlimit
    derive_key_with_params p password kdf_salt log_n r q encrypted_blob_size

  -- The last argument of the source, `_allow_fallback`, is not used there.
  unfoldable pub new_encrypted : KeyNum → SecretKey → Bytes → Bytes → ℕ → ℕ → Result SeckeyStruct
  unfolding derive_blob_key fill_blob
  new_encrypted keynum secret_key password kdf_salt kdf_opslimit kdf_memlimit = do
    let computed_checksum = compute_checksum keynum secret_key.bytes
    derived_key ← derive_blob_key password kdf_salt kdf_opslimit kdf_memlimit
    let blob = fill_blob keynum.bytes secret_key.bytes computed_checksum
    let encrypted_blob = xor_bytes blob derived_key
    ok (record {
      encrypted = true;
      kdf_salt = kdf_salt;
      kdf_opslimit = kdf_opslimit;
      kdf_memlimit = kdf_memlimit;
      keynum = keynum;
      encrypted_keynum = slice 0 8 encrypted_blob;
      secret_key_encrypted = slice 8 72 encrypted_blob;
      checksum = slice 72 104 encrypted_blob;
    })

  -- The warning about weak parameters is printed, and changes nothing.
  unfoldable pub decrypt : SeckeyStruct → Bytes → Result (SecretKey × KeyNum)
  unfolding derive_blob_key fill_blob
  decrypt s password = do
    fail_if (not s.encrypted) (other key_not_encrypted)
    check_kdf_budget s.kdf_memlimit
    derived_key ← derive_blob_key password s.kdf_salt s.kdf_opslimit s.kdf_memlimit
    let encrypted_blob = fill_blob s.encrypted_keynum s.secret_key_encrypted s.checksum
    let decrypted_blob = xor_bytes encrypted_blob derived_key
    let decrypted_keynum : KeyNum = record { bytes = slice 0 8 decrypted_blob }
    let secret_key = slice 8 72 decrypted_blob
    let decrypted_checksum = slice 72 104 decrypted_blob
    let computed_checksum = compute_checksum decrypted_keynum secret_key
    fail_if (not (list_eq computed_checksum decrypted_checksum)) checksum_failed
    ok (record { bytes = secret_key }, decrypted_keynum)

  unfoldable pub extract_key : SeckeyStruct → Option Bytes → Result (SecretKey × KeyNum)
  unfolding decrypt
  extract_key s password =
      if s.encrypted
      then elim password [ none ↦ err password_required | some pwd ↦ decrypt s pwd ]
      else (do secret_key ← get_unencrypted_secret_key s; ok (secret_key, s.keynum))
