-- ===== src/Crypto.antt =====
-- rs/src/crypto.rs and the sizes of rs/src/constants.rs: key material, identifiers, and the
-- wrappers round the cryptographic crates. The crates are a parameter, the record `Primitives`.
pub mod Kdf
pub mod KeyId
pub mod Streaming
use minisign_rs.Base.{
  ℕ, zero, suc, ◌+◌, ◌-◌, ◌*◌, ◌/◌, ◌%◌, ◌^◌, ◌≤◌, ◌<◌, min, ◌≡◌, Bool, true, false, not, ◌&&◌,
  Option, none, some, List, [], ◌∷◌, ◌++◌, ltb, ◌==◌, if◌then◌else◌, length, drop, All, Bytes, Text,
  IsByte, list_eq, IsArray,
}
use minisign_rs.Errors.{
  IoError, interrupted_call, Error, Result, ok, err, ◌>>=◌, ◌>>◌, fail_if, invalid_secret_key,
  invalid_public_key, verification_failed, io, kdf_error, malformed_keypair, not_an_ed25519_point,
  small_order_point, failed_to_read_for_hashing, kdf_output_too_long, invalid_scrypt_params,
  scrypt_failed, scrypt_truncated,
}
use minisign_rs.Formats.{from_le_bytes}

abbrev pub signature_bytes : ℕ
signature_bytes = 64

abbrev pub public_key_bytes : ℕ
public_key_bytes = 32

abbrev pub secret_key_bytes : ℕ
secret_key_bytes = 64

abbrev pub keynum_bytes : ℕ
keynum_bytes = 8

abbrev pub kdf_salt_bytes : ℕ
kdf_salt_bytes = 32

abbrev pub checksum_bytes : ℕ
checksum_bytes = 32

pub record SecretKey : Type 0 where
  pub bytes : Bytes

pub record PublicKey : Type 0 where
  pub bytes : Bytes

pub record Signature : Type 0 where
  pub bytes : Bytes

pub record KeyNum : Type 0 where
  pub bytes : Bytes

abbrev pub IsKeyNum : KeyNum → Type 0
IsKeyNum k = IsArray keynum_bytes k.bytes

-- `KeyNum::ct_eq`
unfoldable pub keynum_eq : KeyNum → KeyNum → Bool
unfolding list_eq
keynum_eq a b = list_eq a.bytes b.bytes

-- An upper-case hexadecimal digit.
unfoldable pub hex_digit : ℕ → ℕ
hex_digit d = if ltb d 10 then b'0' + d else b'A' + d - 10

-- `{b:02X}` for each byte.
unfoldable pub to_hex_bytes : Bytes → Text
unfolding hex_digit
to_hex_bytes [] = []
to_hex_bytes (b ∷ bs) = hex_digit (b / 16) ∷ hex_digit (b % 16) ∷ to_hex_bytes bs

unfoldable pub to_hex : KeyNum → Text
to_hex k = to_hex_bytes k.bytes

-- `{value:0wX}` for a value of at most `w` digits.
unfoldable pub hex_number : ℕ → ℕ → Text
unfolding hex_digit
hex_number zero v = []
hex_number (suc w) v = hex_number w (v / 16) ++ (hex_digit (v % 16) ∷ [])

unfoldable pub to_key_id : KeyNum → Text
to_key_id k = hex_number 16 (from_le_bytes k.bytes)

-- The crates `ed25519_dalek`, `blake2` and `scrypt`, by the calls that the program makes.
pub record Primitives : Type 1 where
  pub SigningKey : Type 0
  pub VerifyingKey : Type 0
  pub Hasher : Type 0
  pub from_keypair_bytes : Bytes → Option SigningKey
  pub sign_message : SigningKey → Bytes → Bytes
  pub verifying_key : SigningKey → Bytes
  pub from_public_bytes : Bytes → Option VerifyingKey
  pub is_weak : VerifyingKey → Bool
  pub verify_strict : VerifyingKey → Bytes → Bytes → Bool
  pub blake2b_256 : Bytes → Bytes
  pub new_blake2b_512 : Hasher
  pub update : Hasher → Bytes → Hasher
  pub finalize : Hasher → Bytes
  pub scrypt_params : ℕ → ℕ → ℕ → ℕ → Bool
  pub scrypt : Bytes → Bytes → ℕ → ℕ → ℕ → ℕ → Option Bytes

-- What the crates document: the sizes of their outputs, and that a hasher may be fed in parts.
pub record ArePrimitives (p : Primitives) : Type 0 where
  pub sign_message-IsArray :
      (k : p.SigningKey) (m : Bytes) → IsArray signature_bytes (p.sign_message k m)
  pub verifying_key-IsArray : (k : p.SigningKey) → IsArray public_key_bytes (p.verifying_key k)
  pub blake2b_256-IsArray : (m : Bytes) → IsArray checksum_bytes (p.blake2b_256 m)
  pub update-append : (h : p.Hasher) (a b : Bytes) → p.update (p.update h a) b ≡ p.update h (a ++ b)
  pub update-nil : (h : p.Hasher) → p.update h [] ≡ h
  pub scrypt-IsArray :
      (password salt : Bytes) (log_n r q len : ℕ) (out : Bytes)
      → p.scrypt password salt log_n r q len ≡ some out
      → IsArray len out

-- One call of `Read::read`: the bytes that came, none at the end, or a failure.
pub data ReadCall : Type 0 where
  chunk : Bytes → ReadCall
  failed : IoError → ReadCall

-- What the calls on an open file will answer, in order; then it is at its end.
abbrev pub Reader : Type 0
Reader = List ReadCall

abbrev pub max_kdf_output_len : ℕ
max_kdf_output_len = 1024

-- `iter().all(|&b| b == 0)`
unfoldable pub all_zero : Bytes → Bool
all_zero [] = true
all_zero (b ∷ bs) = b == 0 && all_zero bs

module _ (p : Primitives) where
  open p use {
    from_keypair_bytes, sign_message, from_public_bytes, is_weak, verify_strict, new_blake2b_512,
    update, finalize, scrypt_params, scrypt, Hasher,
  }

  unfoldable pub sign : SecretKey → Bytes → Result Signature
  sign secret_key message = elim (from_keypair_bytes secret_key.bytes) [
    | none ↦ err (invalid_secret_key malformed_keypair)
    | some k ↦ ok (record { bytes = sign_message k message })
  ]

  unfoldable pub verify : PublicKey → Bytes → Signature → Result (Unit {0})
  verify public_key message signature = elim (from_public_bytes public_key.bytes) [
    | none ↦ err (invalid_public_key not_an_ed25519_point)
    | some k ↦
        if is_weak k
        then err (invalid_public_key small_order_point)
        else if verify_strict k message signature.bytes
        then ok tt
        else err verification_failed
  ]

  unfoldable pub blake2b_512 : Bytes → Bytes
  blake2b_512 m = finalize (update new_blake2b_512 m)

  -- The loop of `blake2b_512_stream`, over the calls of `read` that are left. An interrupted
  -- call is an error here.
  unfoldable pub hash_loop : Hasher → Reader → Result Bytes
  hash_loop h [] = ok (finalize h)
  hash_loop h (chunk [] ∷ rest) = ok (finalize h)
  hash_loop h (chunk (b ∷ bs) ∷ rest) = hash_loop (update h (b ∷ bs)) rest
  hash_loop h (failed e ∷ rest) = err (io (failed_to_read_for_hashing e))

  unfoldable pub blake2b_512_stream : Reader → Result Bytes
  blake2b_512_stream reader = hash_loop new_blake2b_512 reader

  unfoldable pub derive_key_with_params : Bytes → Bytes → ℕ → ℕ → ℕ → ℕ → Result Bytes
  derive_key_with_params password salt log_n r q output_len = do
    fail_if (ltb max_kdf_output_len output_len)
        (kdf_error (kdf_output_too_long output_len max_kdf_output_len))
    fail_if (not (scrypt_params log_n r q (min output_len 64))) (kdf_error invalid_scrypt_params)
    output ← elim (scrypt password salt log_n r q output_len) [
      | none ↦ err (kdf_error scrypt_failed)
      | some out ↦ ok out
    ]
    fail_if (ltb 64 output_len && all_zero (drop 64 output)) (kdf_error scrypt_truncated)
    ok output
