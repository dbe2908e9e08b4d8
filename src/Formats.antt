-- ===== src/Formats.antt =====
-- rs/src/formats.rs: base64 and little-endian numbers. The `base64` crate is a parameter.
pub mod LittleEndian
use minisign_rs.Base.{
  ℕ, zero, suc, ◌+◌, ◌*◌, ◌/◌, ◌%◌, ◌≤◌, ◌<◌, ◌≡◌, Bool, Option, none, some, List, [], ◌∷◌, ltb,
  if◌then◌else◌, length, take, All, Bytes, Text, IsByte, IsInLine,
}
use minisign_rs.Errors.{
  Error, Result, ok, err, ◌>>=◌, fail_if, invalid_base64, invalid_key_format, other,
  decoded_data_exceeds, read_u64_too_short,
}

-- What `decode_slice` answers.
pub data DecodedSlice : Type 0 where
  decoded : Bytes → DecodedSlice
  decode_error output_slice_too_small : DecodedSlice

-- The `STANDARD` engine of the crate `base64`. `decode_slice t n` decodes into a buffer of `n`
-- bytes, and `decoded` holds what it wrote.
pub record Base64 : Type 0 where
  pub encode : Bytes → Text
  pub decode : Text → Option Bytes
  pub decode_slice : Text → ℕ → DecodedSlice

-- What the crate documents of the engine.
pub record IsBase64 (b : Base64) : Type 0 where
  pub decode-encode : (bs : Bytes) → All IsByte bs → b.decode (b.encode bs) ≡ some bs
  pub encode-IsInLine : (bs : Bytes) → All IsByte bs → All IsInLine (b.encode bs)
  pub decode-IsByte : (t : Text) (bs : Bytes) → b.decode t ≡ some bs → All IsByte bs
  pub decode_slice_fits :
      (t : Text) (n : ℕ) (bs : Bytes)
      → b.decode t ≡ some bs
      → length bs ≤ n
      → b.decode_slice t n ≡ decoded bs
  pub decode_slice_decodes :
      (t : Text) (n : ℕ) (bs : Bytes) → b.decode_slice t n ≡ decoded bs → b.decode t ≡ some bs

module _ (b : Base64) where
  unfoldable pub encode_base64 : Bytes → Text
  encode_base64 bs = b.encode bs

  unfoldable pub decode_base64 : Text → Result Bytes
  decode_base64 t = elim (b.decode t) [ none ↦ err invalid_base64 | some bs ↦ ok bs ]

  -- The output buffer is given by its length, and the result is the part that was written.
  unfoldable pub decode_base64_into : Text → ℕ → Result Bytes
  decode_base64_into t output = elim (b.decode_slice t output) [
    | decoded bs ↦ ok bs
    | decode_error ↦ err invalid_base64
    | output_slice_too_small ↦ err (invalid_key_format (decoded_data_exceeds output))
  ]

-- `u64::from_le_bytes` and `to_le_bytes`, for any width.
unfoldable pub from_le_bytes : Bytes → ℕ
from_le_bytes [] = 0
from_le_bytes (b ∷ bs) = b + 256 * from_le_bytes bs

unfoldable pub to_le_bytes : ℕ → ℕ → Bytes
to_le_bytes zero v = []
to_le_bytes (suc k) v = (v % 256) ∷ to_le_bytes k (v / 256)

unfoldable pub read_u64_le : Bytes → Result ℕ
read_u64_le bytes =
    if ltb (length bytes) 8
    then err (other (read_u64_too_short (length bytes)))
    else ok (from_le_bytes (take 8 bytes))
