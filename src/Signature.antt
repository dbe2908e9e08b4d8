-- ===== src/Signature.antt =====
-- rs/src/signature.rs: the signature structure and the signature file.
pub mod Struct
pub mod File
pub mod Verify
use minisign_rs.Base.{
  ℕ, zero, suc, ◌+◌, Bool, true, false, Option, none, some, List, [], ◌∷◌, ◌++◌, not, ◌==◌,
  if◌then◌else◌, length, slice, copy_into, replicate, Bytes, Text, IsArray, IsByte, IsChar, All,
  codes, list_eq, utf8, lines, strip_prefix, ◌≡◌,
}
use minisign_rs.Errors.{
  Error, Result, ok, err, ◌>>=◌, ◌>>◌, fail_if, invalid_signature_format, expected_bytes,
  invalid_algorithm_bytes, expected_lines, untrusted_prefix_missing, trusted_prefix_missing,
  global_signature_length,
}
use minisign_rs.Formats.{Base64, encode_base64, decode_base64}
use minisign_rs.Crypto.{
  Signature, KeyNum, IsKeyNum, PublicKey, SecretKey, signature_bytes, keynum_bytes, Primitives,
  sign, verify,
}
use minisign_rs.Validation.{validate_untrusted_comment, validate_trusted_comment}

abbrev pub sig_struct_size : ℕ
sig_struct_size = 74

abbrev pub sig_alg_normal : Bytes
sig_alg_normal = b'E' ∷ b'd' ∷ []

abbrev pub sig_alg_prehashed : Bytes
sig_alg_prehashed = b'E' ∷ b'D' ∷ []

pub data SignatureAlgorithm : Type 0 where
  normal prehashed_algorithm : SignatureAlgorithm

pub record SigStruct : Type 0 where
  pub prehashed : Bool
  pub keynum : KeyNum
  pub signature : Signature

-- The arrays in it have their sizes.
abbrev pub IsSigStruct : SigStruct → Type 0
IsSigStruct s = IsKeyNum s.keynum × IsArray signature_bytes s.signature.bytes

unfoldable pub algorithm : SigStruct → SignatureAlgorithm
algorithm s = if s.prehashed then prehashed_algorithm else normal

-- The three copies into a zeroed array, at the offsets of the source.
unfoldable pub sig_to_bytes : SigStruct → Bytes
sig_to_bytes s =
    let sig_alg = if s.prehashed then sig_alg_prehashed else sig_alg_normal in
    copy_into 10 74 s.signature.bytes
      (copy_into 2 10 s.keynum.bytes (copy_into 0 2 sig_alg (replicate sig_struct_size 0)))

-- The test of the first two bytes.
unfoldable pub parse_algorithm : Bytes → Result Bool
unfolding list_eq
parse_algorithm sig_alg =
    if list_eq sig_alg sig_alg_normal
    then ok false
    else if list_eq sig_alg sig_alg_prehashed
    then ok true
    else err (invalid_signature_format (invalid_algorithm_bytes sig_alg))

unfoldable pub sig_from_bytes : Bytes → Result SigStruct
unfolding parse_algorithm
sig_from_bytes bytes = do
  fail_if (not (length bytes == sig_struct_size))
      (invalid_signature_format (expected_bytes sig_struct_size (length bytes)))
  prehashed ← parse_algorithm (slice 0 2 bytes)
  ok (record {
    prehashed = prehashed;
    keynum = record { bytes = slice 2 10 bytes };
    signature = record { bytes = slice 10 74 bytes };
  })

pub record SignatureBox : Type 0 where
  pub untrusted_comment : Text
  pub sig_struct : SigStruct
  pub trusted_comment : Text
  pub global_signature : Signature

unfoldable pub validate_comments : Text → Text → Result (Unit {0})
validate_comments untrusted trusted = do
  validate_untrusted_comment untrusted
  validate_trusted_comment trusted

-- `SignatureBox::new`
unfoldable pub new_box : Text → SigStruct → Text → Signature → Result SignatureBox
unfolding validate_comments
new_box untrusted_comment sig_struct trusted_comment global_signature = do
  validate_comments untrusted_comment trusted_comment
  ok (record {
    untrusted_comment = untrusted_comment;
    sig_struct = sig_struct;
    trusted_comment = trusted_comment;
    global_signature = global_signature;
  })

abbrev pub untrusted_prefix : Text
untrusted_prefix = codes "untrusted comment: "

abbrev pub trusted_prefix : Text
trusted_prefix = codes "trusted comment: "

-- `strip_prefix(..).ok_or_else(..)`
unfoldable pub strip_comment : Text → Error → Text → Result Text
strip_comment prefix e l = elim (strip_prefix prefix l) [ none ↦ err e | some s ↦ ok s ]

-- A line of a file, in front of the rest.
abbrev pub line : Text → Text → Text
line s rest = s ++ (10 ∷ rest)

module _ (b : Base64) where
  -- The fourth line.
  unfoldable pub parse_global_signature : Text → Result Signature
  parse_global_signature line3 = do
    bytes ← decode_base64 b line3
    fail_if (not (length bytes == signature_bytes))
        (invalid_signature_format (global_signature_length signature_bytes (length bytes)))
    ok (record { bytes = bytes })

  -- `from_file_contents` behind the count of the lines.
  unfoldable pub parse_lines : Text → Text → Text → Text → Result SignatureBox
  unfolding strip_comment parse_global_signature
  parse_lines line0 line1 line2 line3 = do
    untrusted_comment ←
        strip_comment untrusted_prefix (invalid_signature_format untrusted_prefix_missing) line0
    validate_untrusted_comment untrusted_comment
    sig_struct_bytes ← decode_base64 b line1
    sig_struct ← sig_from_bytes sig_struct_bytes
    trusted_comment ←
        strip_comment trusted_prefix (invalid_signature_format trusted_prefix_missing) line2
    validate_trusted_comment trusted_comment
    global_signature ← parse_global_signature line3
    ok (record {
      untrusted_comment = untrusted_comment;
      sig_struct = sig_struct;
      trusted_comment = trusted_comment;
      global_signature = global_signature;
    })

  unfoldable pub parse_four_lines : List Text → Result SignatureBox
  unfolding parse_lines
  parse_four_lines (l0 ∷ l1 ∷ l2 ∷ l3 ∷ []) = parse_lines l0 l1 l2 l3
  parse_four_lines ls = err (invalid_signature_format (expected_lines 4 (length ls)))

  unfoldable pub box_from_file_contents : Text → Result SignatureBox
  unfolding parse_four_lines
  box_from_file_contents contents = parse_four_lines (lines contents)

  unfoldable pub box_to_file_contents : SignatureBox → Text
  box_to_file_contents box = line (untrusted_prefix ++ box.untrusted_comment) (
      line (encode_base64 b (sig_to_bytes box.sig_struct)) (
        line (trusted_prefix ++ box.trusted_comment)
          (line (encode_base64 b box.global_signature.bytes) [])))

-- The bytes that the global signature signs.
unfoldable pub global_signature_data : SigStruct → Text → Bytes
global_signature_data sig_struct trusted_comment =
    sig_struct.signature.bytes ++ utf8 trusted_comment

module _ (p : Primitives) where
  unfoldable pub verify_global_signature : SignatureBox → PublicKey → Result (Unit {0})
  unfolding global_signature_data
  verify_global_signature box public_key =
      verify p public_key (global_signature_data box.sig_struct box.trusted_comment)
        box.global_signature

  unfoldable pub with_global_signature : Text → SigStruct → Text → SecretKey → Result SignatureBox
  unfolding validate_comments global_signature_data
  with_global_signature untrusted_comment sig_struct trusted_comment secret_key = do
    validate_comments untrusted_comment trusted_comment
    global_signature ← sign p secret_key (global_signature_data sig_struct trusted_comment)
    ok (record {
      untrusted_comment = untrusted_comment;
      sig_struct = sig_struct;
      trusted_comment = trusted_comment;
      global_signature = global_signature;
    })
