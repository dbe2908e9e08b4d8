-- ===== src/Keys/Seckey.antt =====
-- `SeckeyStruct` of rs/src/keys.rs: its fields, its 158 bytes and its file.
pub mod Layout
pub mod Parsed
pub mod File
use minisign_rs.Base.{
  ℕ, ◌<◌, ◌^◌, ◌≡◌, Bool, true, false, not, ◌&&◌, ◌||◌, Option, none, some, List, [], ◌∷◌, ◌++◌,
  ◌==◌, ltb, if◌then◌else◌, length, slice, copy_into, replicate, Bytes, Text, IsArray, lines,
  list_eq, codes,
}
use minisign_rs.Errors.{
  Error, Result, ok, err, ◌>>=◌, ◌>>◌, fail_if, map_err, invalid_base64, invalid_secret_key,
  invalid_key_format, expected_bytes, expected_bytes_got_more, invalid_signature_algorithm,
  invalid_kdf_algorithm, invalid_checksum_algorithm, invalid_kdf_opslimit, invalid_kdf_memlimit,
  missing_comment_or_data_line, password_required,
}
use minisign_rs.Formats.{
  Base64, encode_base64, decode_base64_into, to_le_bytes, read_u64_le, from_le_bytes,
}
use minisign_rs.Crypto.{
  KeyNum, IsKeyNum, SecretKey, to_key_id, hex_number, secret_key_bytes, keynum_bytes,
  kdf_salt_bytes, checksum_bytes,
}
use minisign_rs.Crypto.Kdf.{production_opslimit, production_memlimit, check_kdf_budget}
use minisign_rs.Validation.{validate_untrusted_comment}
use minisign_rs.Signature.{untrusted_prefix, line}
use minisign_rs.Keys.Pubkey.{sig_alg, data_line}

abbrev pub seckey_struct_size : ℕ
seckey_struct_size = 158

abbrev pub kdf_alg_scrypt : Bytes
kdf_alg_scrypt = b'S' ∷ b'c' ∷ []

abbrev pub kdf_alg_none : Bytes
kdf_alg_none = 0 ∷ 0 ∷ []

abbrev pub chk_alg : Bytes
chk_alg = b'B' ∷ b'2' ∷ []

pub record SeckeyStruct : Type 0 where
  pub encrypted : Bool
  pub kdf_salt : Bytes
  pub kdf_opslimit : ℕ
  pub kdf_memlimit : ℕ
  pub keynum : KeyNum
  pub encrypted_keynum : Bytes
  pub secret_key_encrypted : Bytes
  pub checksum : Bytes

-- The arrays have their sizes, and the limits fit 64 bits.
pub record IsSeckey (s : SeckeyStruct) : Type 0 where
  pub salt_array : IsArray kdf_salt_bytes s.kdf_salt
  pub opslimit_u64 : s.kdf_opslimit < 2 ^ 64
  pub memlimit_u64 : s.kdf_memlimit < 2 ^ 64
  pub keynum_array : IsKeyNum s.keynum
  pub encrypted_keynum_array : IsArray keynum_bytes s.encrypted_keynum
  pub secret_key_array : IsArray secret_key_bytes s.secret_key_encrypted
  pub checksum_array : IsArray checksum_bytes s.checksum

unfoldable pub new_unencrypted : KeyNum → SecretKey → SeckeyStruct
new_unencrypted keynum secret_key = record {
  encrypted = false;
  kdf_salt = replicate kdf_salt_bytes 0;
  kdf_opslimit = 0;
  kdf_memlimit = 0;
  keynum = keynum;
  encrypted_keynum = replicate keynum_bytes 0;
  secret_key_encrypted = secret_key.bytes;
  checksum = replicate checksum_bytes 0;
}

unfoldable pub get_unencrypted_secret_key : SeckeyStruct → Result SecretKey
get_unencrypted_secret_key s = do
  fail_if s.encrypted password_required
  ok (record { bytes = s.secret_key_encrypted })

unfoldable pub is_weak_kdf : SeckeyStruct → Bool
is_weak_kdf s =
    if not s.encrypted
    then false
    else ltb s.kdf_opslimit production_opslimit || ltb s.kdf_memlimit production_memlimit

-- The method `check_kdf_budget` of the structure.
unfoldable pub check_seckey_budget : SeckeyStruct → Result (Unit {0})
check_seckey_budget s = if s.encrypted then check_kdf_budget s.kdf_memlimit else ok tt

unfoldable pub credential_id : SeckeyStruct → Text
credential_id s =
    if s.encrypted then hex_number 16 (from_le_bytes s.encrypted_keynum) else to_key_id s.keynum

-- The nine copies into a zeroed array, at the offsets of the source.
unfoldable pub seckey_to_bytes : SeckeyStruct → Bytes
seckey_to_bytes s =
    let bytes0 = copy_into 0 2 sig_alg (replicate seckey_struct_size 0) in
    let bytes1 = copy_into 2 4 (if s.encrypted then kdf_alg_scrypt else kdf_alg_none) bytes0 in
    let bytes2 = copy_into 4 6 chk_alg bytes1 in
    let bytes3 = copy_into 6 38 s.kdf_salt bytes2 in
    let bytes4 = copy_into 38 46 (to_le_bytes 8 s.kdf_opslimit) bytes3 in
    let bytes5 = copy_into 46 54 (to_le_bytes 8 s.kdf_memlimit) bytes4 in
    let bytes6 =
      copy_into 54 62 (if s.encrypted then s.encrypted_keynum else s.keynum.bytes) bytes5 in
    let bytes7 = copy_into 62 126 s.secret_key_encrypted bytes6 in
    copy_into 126 158 s.checksum bytes7

-- The test of the two bytes that name the key derivation.
unfoldable pub parse_kdf_algorithm : Bytes → Result Bool
unfolding list_eq
parse_kdf_algorithm alg =
    if list_eq alg kdf_alg_scrypt
    then ok true
    else if list_eq alg kdf_alg_none
    then ok false
    else err (invalid_secret_key invalid_kdf_algorithm)

unfoldable pub seckey_from_bytes : Bytes → Result SeckeyStruct
unfolding list_eq parse_kdf_algorithm
seckey_from_bytes bytes = do
  fail_if (not (length bytes == seckey_struct_size))
      (invalid_secret_key (expected_bytes seckey_struct_size (length bytes)))
  fail_if (not (list_eq (slice 0 2 bytes) sig_alg)) (invalid_secret_key invalid_signature_algorithm)
  encrypted ← parse_kdf_algorithm (slice 2 4 bytes)
  fail_if (not (list_eq (slice 4 6 bytes) chk_alg)) (invalid_secret_key invalid_checksum_algorithm)
  kdf_opslimit ←
      map_err (λ e. invalid_key_format (invalid_kdf_opslimit e)) (read_u64_le (slice 38 46 bytes))
  kdf_memlimit ←
      map_err (λ e. invalid_key_format (invalid_kdf_memlimit e)) (read_u64_le (slice 46 54 bytes))
  ok (record {
    encrypted = encrypted;
    kdf_salt = slice 6 38 bytes;
    kdf_opslimit = kdf_opslimit;
    kdf_memlimit = kdf_memlimit;
    keynum = record { bytes = if encrypted then replicate keynum_bytes 0 else slice 54 62 bytes };
    encrypted_keynum = if encrypted then slice 54 62 bytes else replicate keynum_bytes 0;
    secret_key_encrypted = slice 62 126 bytes;
    checksum = slice 126 158 bytes;
  })

-- The error of a data line that does not decode.
unfoldable pub data_line_error : Error → Error
data_line_error invalid_base64 = invalid_base64
data_line_error e = invalid_secret_key (expected_bytes_got_more seckey_struct_size)

module _ (b : Base64) where
  unfoldable pub seckey_from_file_contents : Text → Result SeckeyStruct
  unfolding data_line data_line_error
  seckey_from_file_contents contents = do
    l ← data_line (invalid_secret_key missing_comment_or_data_line) (lines contents)
    bytes ← map_err data_line_error (decode_base64_into b l seckey_struct_size)
    seckey_from_bytes bytes

  unfoldable pub seckey_to_file_contents : SeckeyStruct → Text → Result Text
  seckey_to_file_contents s comment = do
    validate_untrusted_comment comment
    ok (line (untrusted_prefix ++ comment) (line (encode_base64 b (seckey_to_bytes s)) []))
