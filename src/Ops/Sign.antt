-- ===== src/Ops/Sign.antt =====
-- rs/src/ops/sign.rs: making the signature of a file.
pub mod Created
pub mod Comment
pub mod File
pub mod Batch
use minisign_rs.Base.{
  ℕ, zero, suc, ◌+◌, ◌-◌, ◌/◌, ◌%◌, ◌==◌, Bool, true, false, not, ◌&&◌, ◌||◌, Option, none, some,
  List, [], ◌∷◌, ◌++◌, ltb, if◌then◌else◌, length, Bytes, Text, codes, list_eq,
}
use minisign_rs.Errors.{
  FilePath, Error, Result, ok, err, ◌>>=◌, ◌>>◌, fail_if, map_err, other, invalid_secret_key,
  key_inconsistency, message_self_verification_failed, global_self_verification_failed,
  clock_before_epoch, clock_before_floor,
}
use minisign_rs.Crypto.{Primitives, SecretKey, PublicKey, KeyNum, sign, verify, blake2b_512_stream}
use minisign_rs.Validation.{
  validate_comment_with_length, comment_max_bytes, comment_prefix_size, trusted_comment_max_bytes,
  trusted_comment_prefix_size,
}
use minisign_rs.Signature.{SigStruct, SignatureBox, new_box, global_signature_data}
use minisign_rs.Ops.Files.{Disk, or_file_read, read_message_file}
use minisign_rs.Ops.Verify.{default_signature_path}

abbrev pub default_untrusted_comment : Text
default_untrusted_comment = codes "signature from minisign secret key"

abbrev pub timestamp_sanity_floor : ℕ
timestamp_sanity_floor = 1577836800

-- The digits of a number in base 10, by the number of digits that are left: a `u64` has at most
-- twenty.
unfoldable pub digits : ℕ → ℕ → Text
digits zero n = []
digits (suc fuel) n =
    let front = digits fuel (n / 10) in
    if ltb n 10 then (b'0' + n) ∷ [] else front ++ ((b'0' + n % 10) ∷ [])

-- `{n}` for a `u64`.
unfoldable pub decimal : ℕ → Text
unfolding digits
decimal n = digits 20 n

-- The part of a path behind its last separator that is no `.` and not empty; `name` is the part
-- that is being read, `last` the last one before it.
unfoldable pub last_part : Text → Text → Text → Text
unfolding list_eq
last_part last name [] = if list_eq name [] || list_eq name (codes ".") then last else name
last_part last name (c ∷ cs) =
    let next =
      last_part (if list_eq name [] || list_eq name (codes ".") then last else name) [] cs in
    let more = last_part last (name ++ (c ∷ [])) cs in if c == b'/' then next else more

-- `Path::file_name` of the standard library, and the empty name where there is none.
unfoldable pub file_name : FilePath → Text
unfolding last_part
file_name path = let name = last_part [] [] path in if list_eq name (codes "..") then [] else name

-- The clock gives the seconds since the epoch, or that it stands before it.
unfoldable pub generate_default_trusted_comment : Option ℕ → FilePath → Bool → Result Text
unfolding decimal file_name
generate_default_trusted_comment clock message_file prehashed = do
  timestamp ← elim clock [ none ↦ err (other clock_before_epoch) | some t ↦ ok t ]
  fail_if (ltb timestamp timestamp_sanity_floor) (other (clock_before_floor timestamp))
  let suffix = if prehashed then codes "\thashed" else []
  ok (
      codes "timestamp:"
      ++ (decimal timestamp ++ (codes "\tfile:" ++ (file_name message_file ++ suffix))))

-- The comments of the options, or the default ones.
unfoldable pub trusted_or_default : Option ℕ → FilePath → Bool → Option Text → Result Text
trusted_or_default clock message_file prehashed (some c) = ok c
trusted_or_default clock message_file prehashed none =
    generate_default_trusted_comment clock message_file prehashed

unfoldable pub untrusted_or_default : Option Text → Text
untrusted_or_default (some c) = c
untrusted_or_default none = default_untrusted_comment

-- The path of the options, or the default one.
unfoldable pub signature_path : FilePath → Option FilePath → FilePath
signature_path message_file signature_file = elim signature_file [
  | none ↦ default_signature_path message_file
  | some path ↦ path
]

module _ (p : Primitives) where
  open p use {from_keypair_bytes, verifying_key}

  -- The public key that the secret key itself determines.
  unfoldable pub derive_public_key : SecretKey → Result PublicKey
  derive_public_key secret_key = elim (from_keypair_bytes secret_key.bytes) [
    | none ↦ err (invalid_secret_key key_inconsistency)
    | some k ↦ ok (record { bytes = verifying_key k })
  ]

  -- The bytes that are signed.
  unfoldable pub data_to_sign : Disk → FilePath → Bool → Result Bytes
  data_to_sign disk message_file true = do
    file ← or_file_read message_file (disk.open_file message_file)
    blake2b_512_stream p file.reader
  data_to_sign disk message_file false = read_message_file disk message_file

  -- `create_signature` behind the checks of the comments and the reading of the message: both
  -- signatures are made, and then verified under the key that the secret key determines.
  unfoldable pub sign_and_check :
      SecretKey → KeyNum → Bool → Text → Text → Bytes → Result SignatureBox
  unfolding derive_public_key
  sign_and_check secret_key keynum prehashed trusted_comment untrusted_comment message = do
    signature ← sign p secret_key message
    let sig_struct : SigStruct = record {
      prehashed = prehashed;
      keynum = keynum;
      signature = signature;
    }
    let global_sig_data = global_signature_data sig_struct trusted_comment
    global_signature ← sign p secret_key global_sig_data
    derived_pk ← derive_public_key secret_key
    map_err (λ e. other message_self_verification_failed) (verify p derived_pk message signature)
    map_err (λ e. other global_self_verification_failed)
        (verify p derived_pk global_sig_data global_signature)
    new_box untrusted_comment sig_struct trusted_comment global_signature

  unfoldable pub create_signature :
      Disk
      → Option ℕ
      → SecretKey
      → KeyNum
      → FilePath
      → Bool
      → Option Text
      → Option Text
      → Result SignatureBox
  unfolding trusted_or_default untrusted_or_default data_to_sign sign_and_check
  create_signature disk clock secret_key keynum message_file prehashed trusted untrusted = do
    trusted_comment ← trusted_or_default clock message_file prehashed trusted
    let untrusted_comment = untrusted_or_default untrusted
    validate_comment_with_length untrusted_comment (some (comment_max_bytes - comment_prefix_size))
        (codes "untrusted")
    validate_comment_with_length trusted_comment
        (some (trusted_comment_max_bytes - trusted_comment_prefix_size)) (codes "trusted")
    message ← data_to_sign disk message_file prehashed
    sign_and_check secret_key keynum prehashed trusted_comment untrusted_comment message
