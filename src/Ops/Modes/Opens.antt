-- ===== src/Ops/Modes/Opens.antt =====
-- A sealed key, written to a file, opens with the password it was sealed with.
use minisign_rs.Base.{
  ℕ, ◌<◌, ◌^◌, ◌≡◌, ap, ◌∙◌, Bool, true, false, Option, none, some, arith, leb, Bytes, Text,
  IsArray, replicate-IsArray,
}
use minisign_rs.Errors.{ok, ◌>>=◌, >>=-eq-ok, fail_if-ok, Error}
use minisign_rs.Formats.{Base64, IsBase64}
use minisign_rs.Crypto.{
  KeyNum, IsKeyNum, SecretKey, secret_key_bytes, kdf_salt_bytes, Primitives, ArePrimitives,
}
use minisign_rs.Crypto.Kdf.{
  calculate_kdf_params, checked_mul, checked_product, ok_or, libsodium_opslimit_multiplier,
  libsodium_memlimit_multiplier, scrypt_r,
}
use minisign_rs.Keys.Seckey.{
  SeckeyStruct, IsSeckey, new_unencrypted, get_unencrypted_secret_key, seckey_to_file_contents,
  seckey_from_file_contents,
}
use minisign_rs.Keys.Seckey.File.{seckey_from_file_contents-seckey_to_file_contents}
use minisign_rs.Keys.Sealing.{extract_key}
use minisign_rs.Keys.Sealing.Stored.{extract_key-new_encrypted}
use minisign_rs.Ops.Modes.{EncryptionMode, protected, unprotected, seal_key}

checked_product_u64 : (a n r v : ℕ) → checked_product a n r ≡ some v → v < 2 ^ 64
unfolding checked_product checked_mul
checked_product_u64 a n r v h = ground arith

ok_or-ok : (e : Error) (x : Option ℕ) (v : ℕ) → ok_or e x ≡ ok v → x ≡ some v
ok_or-ok e none v h = cc
ok_or-ok e (some x) v h = cc

unforced :
    (log_n op mem : ℕ)
    → calculate_kdf_params true log_n false ≡ ok (op, mem)
    → (op < 2 ^ 64) × (mem < 2 ^ 64)
unfolding calculate_kdf_params
unforced log_n op mem h =
    let (a, h1) = fail_if-ok (leb 64 log_n) _ _ h in
    let (x, ex, h2) =
      >>=-eq-ok (ok_or _ (checked_product libsodium_opslimit_multiplier (2 ^ log_n) scrypt_r)) _
        h1 in
    let (y, ey, h3) =
      >>=-eq-ok (ok_or _ (checked_product libsodium_memlimit_multiplier (2 ^ log_n) scrypt_r)) _
        h2 in
    let same : (x ≡ op) × (y ≡ mem) = (cc, cc) in
    (
      checked_product_u64 libsodium_opslimit_multiplier (2 ^ log_n) scrypt_r op
          (ok_or-ok _ _ op (ex ∙ ap ok same.0)),
      checked_product_u64 libsodium_memlimit_multiplier (2 ^ log_n) scrypt_r mem
          (ok_or-ok _ _ mem (ey ∙ ap ok same.1)),
    )

-- The limits fit 64 bits.
pub calculate_kdf_params_u64 :
    (debug force : Bool) (log_n op mem : ℕ)
    → calculate_kdf_params debug log_n force ≡ ok (op, mem)
    → (op < 2 ^ 64) × (mem < 2 ^ 64)
unfolding calculate_kdf_params
calculate_kdf_params_u64 true true log_n op mem h = ground arith
calculate_kdf_params_u64 false true log_n op mem h = cc
calculate_kdf_params_u64 true false log_n op mem h = unforced log_n op mem h
calculate_kdf_params_u64 false false log_n op mem h = unforced log_n op mem h

module _ (b : Base64) (codec : IsBase64 b) (p : Primitives) (laws : ArePrimitives p) where
  new_unencrypted-IsSeckey :
      (kn : KeyNum) (sk : SecretKey)
      → IsKeyNum kn
      → IsArray secret_key_bytes sk.bytes
      → IsSeckey (new_unencrypted kn sk)
  unfolding new_unencrypted
  new_unencrypted-IsSeckey kn sk hk hs = record {
    salt_array = replicate-IsArray 32 0 (omega arith);
    opslimit_u64 = omega arith;
    memlimit_u64 = omega arith;
    keynum_array = hk;
    encrypted_keynum_array = replicate-IsArray 8 0 (omega arith);
    secret_key_array = hs;
    checksum_array = replicate-IsArray 32 0 (omega arith);
  }

  module _ (kn : KeyNum) (sk : SecretKey) (salt : Bytes) (hk : IsKeyNum kn)
      (hs : IsArray secret_key_bytes sk.bytes) (hsalt : IsArray kdf_salt_bytes salt) where
    opens_plain :
        (comment contents : Text) (password : Option Bytes)
        → seckey_to_file_contents b (new_unencrypted kn sk) comment ≡ ok contents
        → (seckey_from_file_contents b contents >>= λ t. extract_key p t password) ≡ ok (sk, kn)
    unfolding extract_key new_unencrypted get_unencrypted_secret_key
    opens_plain comment contents password w =
        ap (λ r. r >>= λ t. extract_key p t password)
          (seckey_from_file_contents-seckey_to_file_contents b codec (new_unencrypted kn sk) comment
            contents (new_unencrypted-IsSeckey kn sk hk hs) w)

    -- Whichever the mode, a key that has been sealed and written to a file is read from it with
    -- the password that was given, as the same secret key and key number.
    pub seal_key-opens :
        (debug : Bool) (mode : EncryptionMode) (force : Bool) (log_n : ℕ) (password : Option Bytes)
        (comment contents : Text) (s : SeckeyStruct)
        → seal_key p debug mode force log_n salt password kn sk ≡ ok s
        → seckey_to_file_contents b s comment ≡ ok contents
        → (seckey_from_file_contents b contents >>= λ t. extract_key p t password) ≡ ok (sk, kn)
    unfolding seal_key
    seal_key-opens debug unprotected force log_n password comment contents s h w =
        let same : new_unencrypted kn sk ≡ s = cc in
        opens_plain comment contents password
          (ap (λ t. seckey_to_file_contents b t comment) same ∙ w)
    seal_key-opens debug protected force log_n none comment contents s h w = cc
    seal_key-opens debug protected force log_n (some password) comment contents s h w =
        let ((op, mem), limits, made) = >>=-eq-ok (calculate_kdf_params debug log_n force) _ h in
        let (hop, hmem) = calculate_kdf_params_u64 debug force log_n op mem limits in
        (extract_key-new_encrypted b codec p laws kn sk password salt comment contents op mem s hk
          hs hsalt hop hmem made w).0
