-- ===== src/Ops/Verify.antt =====
-- rs/src/ops/verify.rs: verifying the signature of a file.
pub mod Accepted
pub mod Batch
use minisign_rs.Base.{
  ℕ, ◌-◌, ◌==◌, Bool, true, false, not, ◌&&◌, Option, none, some, List, [], ◌∷◌, ◌++◌, map, ltb,
  if◌then◌else◌, length, Bytes, Text, codes,
}
use minisign_rs.Errors.{
  FilePath, Error, Result, ok, err, ◌>>=◌, ◌>>◌, fail_if, is_err, key_mismatch,
  legacy_signature_rejected, other, output_needs_buffering, partial_failure, total_failure,
}
use minisign_rs.Formats.{Base64}
use minisign_rs.Crypto.{
  Primitives, keynum_eq, to_key_id, verify, blake2b_512, blake2b_512_stream, PublicKey,
}
use minisign_rs.Signature.{SigStruct, SignatureBox, box_from_file_contents, verify_global_signature}
use minisign_rs.Keys.Pubkey.{PubkeyStruct, pubkey_from_file_contents, pubkey_from_base64}
use minisign_rs.Wordlist.{keynum_to_words}
use minisign_rs.Ops.Files.{
  Disk, or_file_read, read_file_bounded, read_message_file, max_key_file_bytes,
  max_signature_file_bytes, max_message_size_bytes, sanitised_path_display,
}

pub data PublicKeySource : Type 0 where
  key_file : FilePath → PublicKeySource
  key_base64 : Text → PublicKeySource

pub record VerifyOptions : Type 0 where
  pub public_key : PublicKeySource
  pub signature_file : FilePath
  pub message_file : FilePath
  pub output : Bool
  pub quiet : Bool
  pub force_prehashed : Bool

pub data MessageSource : Type 0 where
  buffer : Bytes → MessageSource

pub record VerifyResult : Type 0 where
  pub trusted_comment : Text
  pub untrusted_comment : Text
  pub key_id : Text
  pub key_id_words : Text
  pub message_output : Option MessageSource

-- `PathBuf` with `.minisig` at its end.
unfoldable pub default_signature_path : FilePath → FilePath
default_signature_path path = path ++ codes ".minisig"

-- What `verify` and `verify_file_with_key` return.
unfoldable pub verify_result : PubkeyStruct → SignatureBox → Option MessageSource → VerifyResult
verify_result pubkey sig_box message_output = record {
  trusted_comment = sig_box.trusted_comment;
  untrusted_comment = sig_box.untrusted_comment;
  key_id = to_key_id pubkey.keynum;
  key_id_words = keynum_to_words pubkey.keynum;
  message_output = message_output;
}

module _ (p : Primitives) (b : Base64) (disk : Disk) where
  open disk use {open_file, metadata_len}

  unfoldable pub load_public_key : PublicKeySource → Result PubkeyStruct
  load_public_key (key_file path) = do
    contents ← read_file_bounded disk path max_key_file_bytes
    pubkey_from_file_contents b contents
  load_public_key (key_base64 s) = pubkey_from_base64 b s

  unfoldable pub load_signature : FilePath → Result SignatureBox
  load_signature path = do
    contents ← read_file_bounded disk path max_signature_file_bytes
    box_from_file_contents b contents

  -- A prehashed signature when the message is to be given out: it is read into memory first.
  unfoldable pub verify_buffered : PublicKey → SigStruct → FilePath → Result (Option MessageSource)
  verify_buffered public_key sig_struct message_file = do
    file_size ← or_file_read message_file (metadata_len message_file)
    fail_if (ltb max_message_size_bytes file_size) (other output_needs_buffering)
    file_buf ← read_message_file disk message_file
    let hash = blake2b_512 p file_buf
    verify p public_key hash sig_struct.signature
    ok (some (buffer file_buf))

  -- A prehashed signature of a message that is only hashed.
  unfoldable pub verify_streamed : PublicKey → SigStruct → FilePath → Result (Option MessageSource)
  verify_streamed public_key sig_struct message_file = do
    file ← or_file_read message_file (open_file message_file)
    hash ← blake2b_512_stream p file.reader
    verify p public_key hash sig_struct.signature
    ok none

  -- A signature of the message itself.
  unfoldable pub verify_legacy :
      PublicKey → SigStruct → FilePath → Bool → Result (Option MessageSource)
  verify_legacy public_key sig_struct message_file capture_output = do
    file_buf ← read_message_file disk message_file
    verify p public_key file_buf sig_struct.signature
    ok (if capture_output then some (buffer file_buf) else none)

  unfoldable pub verify_message_signature :
      PubkeyStruct → SignatureBox → FilePath → Bool → Bool → Result (Option MessageSource)
  unfolding verify_buffered verify_streamed verify_legacy
  verify_message_signature pubkey sig_box message_file force_prehashed capture_output = do
    let sig_struct = sig_box.sig_struct
    fail_if (not (keynum_eq pubkey.keynum sig_struct.keynum))
        (key_mismatch (to_key_id sig_struct.keynum))
    fail_if (force_prehashed && not sig_struct.prehashed) legacy_signature_rejected
    if sig_struct.prehashed
        then if capture_output
          then verify_buffered pubkey.public_key sig_struct message_file
          else verify_streamed pubkey.public_key sig_struct message_file
        else verify_legacy pubkey.public_key sig_struct message_file capture_output

  -- `verify`
  unfoldable pub verify_file : VerifyOptions → Result VerifyResult
  unfolding load_public_key load_signature verify_message_signature verify_result
  verify_file options = do
    pubkey ← load_public_key options.public_key
    sig_box ← load_signature options.signature_file
    message_output ←
        verify_message_signature pubkey sig_box options.message_file options.force_prehashed
          options.output
    verify_global_signature p sig_box pubkey.public_key
    ok (verify_result pubkey sig_box message_output)

  unfoldable pub verify_file_with_key :
      FilePath → PubkeyStruct → VerifyOptions → Result VerifyResult
  unfolding load_signature verify_message_signature verify_result default_signature_path
  verify_file_with_key message_file pubkey options = do
    sig_box ← load_signature (default_signature_path message_file)
    _ ← verify_message_signature pubkey sig_box message_file options.force_prehashed false
    verify_global_signature p sig_box pubkey.public_key
    ok (verify_result pubkey sig_box none)
