-- ===== src/Keys/Pubkey.antt =====
-- `PubkeyStruct` of rs/src/keys.rs.
pub mod File
use minisign_rs.Base.{
  ℕ, Bool, true, false, not, List, [], ◌∷◌, ◌++◌, ◌==◌, if◌then◌else◌, length, slice, copy_into,
  replicate, Bytes, Text, IsArray, lines, list_eq, codes,
}
use minisign_rs.Errors.{
  Error, Result, ok, err, ◌>>=◌, ◌>>◌, fail_if, invalid_public_key, expected_bytes,
  invalid_signature_algorithm, missing_comment_or_data_line,
}
use minisign_rs.Formats.{Base64, encode_base64, decode_base64}
use minisign_rs.Crypto.{KeyNum, IsKeyNum, PublicKey, public_key_bytes}
use minisign_rs.Validation.{validate_untrusted_comment}
use minisign_rs.Signature.{untrusted_prefix, line}

abbrev pub pubkey_struct_size : ℕ
pubkey_struct_size = 42

abbrev pub sig_alg : Bytes
sig_alg = b'E' ∷ b'd' ∷ []

pub record PubkeyStruct : Type 0 where
  pub keynum : KeyNum
  pub public_key : PublicKey

-- The arrays in it have their sizes.
abbrev pub IsPubkey : PubkeyStruct → Type 0
IsPubkey k = IsKeyNum k.keynum × IsArray public_key_bytes k.public_key.bytes

unfoldable pub pubkey_to_bytes : PubkeyStruct → Bytes
pubkey_to_bytes k =
    copy_into 10 42 k.public_key.bytes
      (copy_into 2 10 k.keynum.bytes (copy_into 0 2 sig_alg (replicate pubkey_struct_size 0)))

unfoldable pub pubkey_from_bytes : Bytes → Result PubkeyStruct
unfolding list_eq
pubkey_from_bytes bytes = do
  fail_if (not (length bytes == pubkey_struct_size))
      (invalid_public_key (expected_bytes pubkey_struct_size (length bytes)))
  fail_if (not (list_eq (slice 0 2 bytes) sig_alg)) (invalid_public_key invalid_signature_algorithm)
  ok (record {
    keynum = record { bytes = slice 2 10 bytes };
    public_key = record { bytes = slice 10 42 bytes };
  })

-- The second line of a key file, for any error that its absence gives.
unfoldable pub data_line : Error → List Text → Result Text
data_line e (comment ∷ l ∷ ls) = ok l
data_line e ls = err e

module _ (b : Base64) where
  unfoldable pub pubkey_from_base64 : Text → Result PubkeyStruct
  pubkey_from_base64 s = do bytes ← decode_base64 b s; pubkey_from_bytes bytes

  unfoldable pub pubkey_from_file_contents : Text → Result PubkeyStruct
  unfolding data_line
  pubkey_from_file_contents contents = do
    l ← data_line (invalid_public_key missing_comment_or_data_line) (lines contents)
    bytes ← decode_base64 b l
    pubkey_from_bytes bytes

  unfoldable pub pubkey_to_file_contents : PubkeyStruct → Text → Result Text
  pubkey_to_file_contents k comment = do
    validate_untrusted_comment comment
    ok (line (untrusted_prefix ++ comment) (line (encode_base64 b (pubkey_to_bytes k)) []))
