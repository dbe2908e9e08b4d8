-- ===== src/Keys/Sealing/Reseals.antt =====
-- What decryption accepts: only what encryption of its result makes.
use minisign_rs.Base.{◌≡◌, ap, ◌∙◌, true, arith, slice, Bytes, IsArray, list_eq_iff}
use minisign_rs.Errors.{ok, ◌>>=◌}
use minisign_rs.Crypto.{KeyNum, SecretKey, Primitives, ArePrimitives}
use minisign_rs.Keys.Seckey.{SeckeyStruct, IsSeckey}
use minisign_rs.Keys.Sealing.{
  xor_bytes, fill_blob, compute_checksum, derive_blob_key, new_encrypted, decrypt,
}
use minisign_rs.Keys.Sealing.Blob.{
  xor_bytes-IsArray, xor_bytes-xor_bytes, fill_blob_slices, fill_blob-slice, fill_blob-IsArray,
}
use minisign_rs.Keys.Sealing.Opens.{
  derive_blob_key-IsArray, new_encrypted-sealed, sealed, plain_blob,
}

module _ (p : Primitives) (laws : ArePrimitives p) where
  abbrev stored_blob : SeckeyStruct → Bytes
  stored_blob s = fill_blob s.encrypted_keynum s.secret_key_encrypted s.checksum

  abbrev opened_blob : SeckeyStruct → Bytes → Bytes
  opened_blob s key = xor_bytes (stored_blob s) key

  -- What is known when decryption succeeds.
  record Opened (s : SeckeyStruct) (password key : Bytes) (sk : SecretKey) (kn : KeyNum)
      : Type 0 where
    was_encrypted : s.encrypted ≡ true
    derived : derive_blob_key p password s.kdf_salt s.kdf_opslimit s.kdf_memlimit ≡ ok key
    keynum_at : kn.bytes ≡ slice 0 8 (opened_blob s key)
    key_at : sk.bytes ≡ slice 8 72 (opened_blob s key)
    checksum_at : compute_checksum p kn sk.bytes ≡ slice 72 104 (opened_blob s key)

  decrypt_with_key :
      (s : SeckeyStruct) (password key : Bytes) (sk : SecretKey) (kn : KeyNum)
      → derive_blob_key p password s.kdf_salt s.kdf_opslimit s.kdf_memlimit ≡ ok key
      → decrypt p s password ≡ ok (sk, kn)
      → Opened s password key sk kn
  unfolding decrypt
  decrypt_with_key s password key sk kn d h = ground (
    arith,
    list_eq_iff
        (compute_checksum p (record { bytes = slice 0 8 (opened_blob s key) })
          (slice 8 72 (opened_blob s key)))
        (slice 72 104 (opened_blob s key)),
  )

  decrypt_derives :
      (s : SeckeyStruct) (password : Bytes) (r : SecretKey × KeyNum)
      → decrypt p s password ≡ ok r
      → (key : Bytes) × (derive_blob_key p password s.kdf_salt s.kdf_opslimit s.kdf_memlimit
          ≡ ok key)
  unfolding decrypt
  decrypt_derives s password r h = ground arith

  module _ (s : SeckeyStruct) (password key : Bytes) (sk : SecretKey) (kn : KeyNum)
      (good : IsSeckey s) (o : Opened s password key sk kn) where
    stored-IsArray : IsArray 104 (stored_blob s)
    stored-IsArray =
        fill_blob-IsArray s.encrypted_keynum s.secret_key_encrypted s.checksum
          good.encrypted_keynum_array good.secret_key_array good.checksum_array

    derived_key-IsArray : IsArray 104 key
    derived_key-IsArray =
        derive_blob_key-IsArray p laws password s.kdf_salt s.kdf_opslimit s.kdf_memlimit key
          o.derived

    plain_blob-opened : plain_blob p laws kn sk ≡ opened_blob s key
    plain_blob-opened =
        rw (o.checksum_at, o.keynum_at, o.key_at)
          (fill_blob-slice (opened_blob s key)
            (xor_bytes-IsArray 104 (stored_blob s) key stored-IsArray derived_key-IsArray).0)

    closed_again : xor_bytes (plain_blob p laws kn sk) key ≡ stored_blob s
    closed_again =
        ap (λ x. xor_bytes x key) plain_blob-opened
        ∙ xor_bytes-xor_bytes 104 (stored_blob s) key stored-IsArray derived_key-IsArray

    sealed-opened :
        sealed p laws kn sk s.kdf_salt s.kdf_opslimit s.kdf_memlimit key ≡ record s { keynum = kn }
    sealed-opened =
        let (k_at, s_at, c_at) =
          fill_blob_slices s.encrypted_keynum s.secret_key_encrypted s.checksum
            good.encrypted_keynum_array.0 good.secret_key_array.0 good.checksum_array.0 in
        rw closed_again (rw (k_at, s_at, c_at) (ground (arith, o.was_encrypted)))

  -- A password opens a stored key as a secret key and key number only if encrypting these two
  -- under that password, with the salt and the limits that are stored, gives the stored key
  -- again, but for the plain key number: no other contents of the file pass the checksum.
  pub new_encrypted-decrypt :
      (s : SeckeyStruct) (password : Bytes) (sk : SecretKey) (kn : KeyNum)
      → IsSeckey s
      → decrypt p s password ≡ ok (sk, kn)
      → new_encrypted p kn sk password s.kdf_salt s.kdf_opslimit s.kdf_memlimit
        ≡ ok (record s { keynum = kn })
  new_encrypted-decrypt s password sk kn good h =
      let (key, d) = decrypt_derives s password (sk, kn) h in
      let o = decrypt_with_key s password key sk kn d h in
      new_encrypted-sealed p laws kn sk password s.kdf_salt s.kdf_opslimit s.kdf_memlimit
      ∙ ap (λ r. r >>= λ k. ok (sealed p laws kn sk s.kdf_salt s.kdf_opslimit s.kdf_memlimit k)) d
      ∙ ap ok (sealed-opened s password key sk kn good o)
