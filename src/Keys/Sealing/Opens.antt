-- ===== src/Keys/Sealing/Opens.antt =====
-- Encryption and decryption of a secret key undo each other.
use minisign_rs.Base.{
  ℕ, ◌^◌, ◌<◌, ◌≡◌, refl, sym, ap, ◌∙◌, true, arith, length-slice, slice, All-slice, Bytes, IsByte,
  IsArray, list_eq_refl,
}
use minisign_rs.Errors.{ok, ◌>>=◌, >>=-eq-ok}
use minisign_rs.Crypto.{
  KeyNum, IsKeyNum, SecretKey, secret_key_bytes, kdf_salt_bytes, Primitives, ArePrimitives,
  derive_key_with_params,
}
use minisign_rs.Crypto.Kdf.{opslimit_memlimit_to_params, check_kdf_budget}
use minisign_rs.Keys.Seckey.{SeckeyStruct, IsSeckey}
use minisign_rs.Keys.Seckey.Layout.{forget}
use minisign_rs.Keys.Sealing.{
  xor_bytes, fill_blob, compute_checksum, derive_blob_key, new_encrypted, decrypt,
}
use minisign_rs.Keys.Sealing.Blob.{
  xor_bytes-IsArray, xor_bytes-xor_bytes, fill_blob_slices, fill_blob-slice, fill_blob-IsArray,
}

module _ (p : Primitives) (laws : ArePrimitives p) where
  open laws use {blake2b_256-IsArray, scrypt-IsArray}

  -- A derived key has the length that was asked for, and is within the limit of 1024 bytes.
  derive_key_with_params-IsArray :
      (password salt : Bytes) (log_n r q n : ℕ) (out : Bytes)
      → derive_key_with_params p password salt log_n r q n ≡ ok out
      → IsArray n out
  unfolding derive_key_with_params
  derive_key_with_params-IsArray password salt log_n r q n out h =
      ground (arith, scrypt-IsArray password salt log_n r q n out)

  pub derive_blob_key-IsArray :
      (password salt : Bytes) (op mem : ℕ) (key : Bytes)
      → derive_blob_key p password salt op mem ≡ ok key
      → IsArray 104 key
  unfolding derive_blob_key
  derive_blob_key-IsArray password salt op mem key h =
      let ((l, r, q), e, f) = >>=-eq-ok (opslimit_memlimit_to_params p.scrypt_params op mem) _ h in
      derive_key_with_params-IsArray password salt l r q 104 key f

  derive_blob_key_budget :
      (password salt : Bytes) (op mem : ℕ) (key : Bytes)
      → derive_blob_key p password salt op mem ≡ ok key
      → check_kdf_budget mem ≡ ok tt
  unfolding derive_blob_key opslimit_memlimit_to_params
  derive_blob_key_budget password salt op mem key h = ground arith

  pub checksum-IsArray : (kn : KeyNum) (sk : Bytes) → IsArray 32 (compute_checksum p kn sk)
  unfolding compute_checksum
  checksum-IsArray kn sk = blake2b_256-IsArray _

  -- The blob that is encrypted, and the structure that a derived key makes of it.
  abbrev pub plain_blob : KeyNum → SecretKey → Bytes
  plain_blob kn sk = fill_blob kn.bytes sk.bytes (compute_checksum p kn sk.bytes)

  abbrev pub sealed : KeyNum → SecretKey → Bytes → ℕ → ℕ → Bytes → SeckeyStruct
  sealed kn sk salt op mem key = record {
    encrypted = true;
    kdf_salt = salt;
    kdf_opslimit = op;
    kdf_memlimit = mem;
    keynum = kn;
    encrypted_keynum = slice 0 8 (xor_bytes (plain_blob kn sk) key);
    secret_key_encrypted = slice 8 72 (xor_bytes (plain_blob kn sk) key);
    checksum = slice 72 104 (xor_bytes (plain_blob kn sk) key);
  }

  pub new_encrypted-sealed :
      (kn : KeyNum) (sk : SecretKey) (password salt : Bytes) (op mem : ℕ)
      → new_encrypted p kn sk password salt op mem
        ≡ (derive_blob_key p password salt op mem >>= λ key. ok (sealed kn sk salt op mem key))
  unfolding new_encrypted
  new_encrypted-sealed kn sk password salt op mem = refl

  plain_blob-IsArray :
      (kn : KeyNum) (sk : SecretKey)
      → IsKeyNum kn
      → IsArray secret_key_bytes sk.bytes
      → IsArray 104 (plain_blob kn sk)
  plain_blob-IsArray kn sk hk hs =
      fill_blob-IsArray kn.bytes sk.bytes _ hk hs (checksum-IsArray kn sk.bytes)

  module _ (kn : KeyNum) (sk : SecretKey) (salt : Bytes) (op mem : ℕ) (key : Bytes)
      (hk : IsKeyNum kn) (hs : IsArray secret_key_bytes sk.bytes) (ha : IsArray 104 key) where
    abbrev whole : Bytes
    whole = xor_bytes (plain_blob kn sk) key

    whole-IsArray : IsArray 104 whole
    whole-IsArray = xor_bytes-IsArray 104 (plain_blob kn sk) key (plain_blob-IsArray kn sk hk hs) ha

    abbrev reopened : Bytes
    reopened = xor_bytes (fill_blob (slice 0 8 whole) (slice 8 72 whole) (slice 72 104 whole)) key

    reopened-eq : reopened ≡ plain_blob kn sk
    reopened-eq =
        ap (λ x. xor_bytes x key) (fill_blob-slice whole whole-IsArray.0)
        ∙ xor_bytes-xor_bytes 104 (plain_blob kn sk) key (plain_blob-IsArray kn sk hk hs) ha

  decrypt-sealed :
      (kn : KeyNum) (sk : SecretKey) (password salt : Bytes) (op mem : ℕ) (key : Bytes)
      → IsKeyNum kn
      → IsArray secret_key_bytes sk.bytes
      → derive_blob_key p password salt op mem ≡ ok key
      → decrypt p (sealed kn sk salt op mem key) password ≡ ok (sk, kn)
  unfolding decrypt
  decrypt-sealed kn sk password salt op mem key hk hs d =
      let ha = derive_blob_key-IsArray password salt op mem key d in
      let (k_at, s_at, c_at) =
        fill_blob_slices kn.bytes sk.bytes (compute_checksum p kn sk.bytes) hk.0 hs.0
          (checksum-IsArray kn sk.bytes).0 in
      rw (derive_blob_key_budget password salt op mem key d, d)
        (rw (reopened-eq kn sk salt op mem key hk hs ha, k_at, s_at, c_at) (rw list_eq_refl refl))

  new_encrypted_inv :
      (kn : KeyNum) (sk : SecretKey) (password salt : Bytes) (op mem : ℕ) (s : SeckeyStruct)
      → new_encrypted p kn sk password salt op mem ≡ ok s
      → (key : Bytes) × (derive_blob_key p password salt op mem ≡ ok key)
        × (sealed kn sk salt op mem key ≡ s)
  new_encrypted_inv kn sk password salt op mem s h =
      let (key, d, e) =
        >>=-eq-ok (derive_blob_key p password salt op mem) _
          (sym (new_encrypted-sealed kn sk password salt op mem) ∙ h) in
      (key, d, cc)

  -- The password that a key was encrypted under opens it, and gives back the same secret key and
  -- key number.
  pub decrypt-new_encrypted :
      (kn : KeyNum) (sk : SecretKey) (password salt : Bytes) (op mem : ℕ) (s : SeckeyStruct)
      → IsKeyNum kn
      → IsArray secret_key_bytes sk.bytes
      → new_encrypted p kn sk password salt op mem ≡ ok s
      → decrypt p s password ≡ ok (sk, kn)
  decrypt-new_encrypted kn sk password salt op mem s hk hs h =
      let (key, d, e) = new_encrypted_inv kn sk password salt op mem s h in
      ap (λ x. decrypt p x password) (sym e) ∙ decrypt-sealed kn sk password salt op mem key hk hs d

  sealed-IsSeckey :
      (kn : KeyNum) (sk : SecretKey) (salt : Bytes) (op mem : ℕ) (key : Bytes)
      → IsKeyNum kn
      → IsArray secret_key_bytes sk.bytes
      → IsArray kdf_salt_bytes salt
      → op < 2 ^ 64
      → mem < 2 ^ 64
      → IsArray 104 key
      → IsSeckey (sealed kn sk salt op mem key)
  sealed-IsSeckey kn sk salt op mem key hk hs hsalt hop hmem ha =
      let (len, bytes) = whole-IsArray kn sk salt op mem key hk hs ha in
      let w = whole kn sk salt op mem key hk hs ha in
      record {
        salt_array = hsalt;
        opslimit_u64 = hop;
        memlimit_u64 = hmem;
        keynum_array = hk;
        encrypted_keynum_array =
            (length-slice 0 8 w (omega arith) (omega arith), All-slice IsByte 0 8 w bytes);
        secret_key_array =
            (length-slice 8 72 w (omega arith) (omega arith), All-slice IsByte 8 72 w bytes);
        checksum_array =
            (length-slice 72 104 w (omega arith) (omega arith), All-slice IsByte 72 104 w bytes);
      }

  -- A key that `new_encrypted` makes is encrypted, its arrays have the right sizes, and its limits
  -- fit 64 bits.
  pub new_encrypted-IsSeckey :
      (kn : KeyNum) (sk : SecretKey) (password salt : Bytes) (op mem : ℕ) (s : SeckeyStruct)
      → IsKeyNum kn
      → IsArray secret_key_bytes sk.bytes
      → IsArray kdf_salt_bytes salt
      → op < 2 ^ 64
      → mem < 2 ^ 64
      → new_encrypted p kn sk password salt op mem ≡ ok s
      → IsSeckey s × (s.encrypted ≡ true)
  new_encrypted-IsSeckey kn sk password salt op mem s hk hs hsalt hop hmem h =
      let (key, d, e) = new_encrypted_inv kn sk password salt op mem s h in
      rw (← e) (
        sealed-IsSeckey kn sk salt op mem key hk hs hsalt hop hmem
            (derive_blob_key-IsArray password salt op mem key d),
        refl,
      )

  pub decrypt-forget :
      (s : SeckeyStruct) (password : Bytes)
      → s.encrypted ≡ true
      → decrypt p (forget s) password ≡ decrypt p s password
  unfolding decrypt
  decrypt-forget s password e = ground arith
