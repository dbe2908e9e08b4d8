-- ===== src/Tests/Operations.antt =====
-- Runs of signing and verifying on a small disk.
use minisign_rs.Base.{
  replicate-IsArray, ℕ, ◌≤◌, ◌≡◌, ◌↔◌, refl, arith, true, false, Option, none, some, List, [], ◌∷◌,
  replicate, All, Bytes, codes, length, lines, strip_prefix, slice, copy_into, utf8, text_len,
  list_eq, if◌then◌else◌,
}
use minisign_rs.Errors.{
  FilePath, ok, err, not_found, other_kind, interrupted_call, verification_failed,
}
use minisign_rs.Crypto.{keynum_eq, KeyNum, SecretKey, PublicKey, chunk, failed, sign, verify}
use minisign_rs.Validation.{
  validate_comment_with_length, is_printable, validate_untrusted_comment, validate_trusted_comment,
}
use minisign_rs.Signature.{
  sig_to_bytes, sig_from_bytes, global_signature_data, new_box, SignatureBox,
  verify_global_signature, box_to_file_contents, box_from_file_contents,
}
use minisign_rs.Signature.File.{IsBox}
use minisign_rs.Keys.Pubkey.{PubkeyStruct, pubkey_to_bytes, pubkey_from_base64, pubkey_from_bytes}
use minisign_rs.Formats.{encode_base64, decode_base64}
use minisign_rs.Ops.Files.{
  Disk, OpenFile, IoResult, io_ok, io_err, read_file_bounded, read_message_file, read_to_end,
  max_message_size_bytes,
}
use minisign_rs.Ops.Files.Bounded.{delivered, read_message_file-delivered}
use minisign_rs.Ops.Verify.{
  VerifyOptions, VerifyResult, key_base64, buffer, load_public_key, load_signature,
  verify_message_signature, verify_file, verify_file_with_key, verify_result,
  default_signature_path,
}
use minisign_rs.Ops.Verify.Accepted.{
  Verified, Established, verify_message_signature-ok, verify_file-ok,
}
use minisign_rs.Ops.Verify.Batch.{FileResult, verify_multiple_files}
use minisign_rs.Ops.Verify.Batch.Summary.{Verifies, verify_multiple_files_iff}
use minisign_rs.Ops.Sign.{
  create_signature, derive_public_key, timestamp_sanity_floor, generate_default_trusted_comment,
}
use minisign_rs.Ops.Sign.Created.{verify_message_signature-create_signature}
use minisign_rs.Ops.Sign.Comment.{timestamp_of, timestamp_of-generate_default_trusted_comment}
use minisign_rs.Tests.Models.{hex, hex_encode, hex_decode, toy, toy-ArePrimitives, digest, sum}

abbrev pub kn : KeyNum
kn = record { bytes = replicate 8 1 }

abbrev pub sk : SecretKey
sk = record { bytes = replicate 64 7 }

abbrev pub message_path : FilePath
message_path = codes "m"

abbrev pub pubkey : PubkeyStruct
pubkey = record { keynum = kn; public_key = record { bytes = replicate 32 0 } }

abbrev message : Bytes
message = 1 ∷ 2 ∷ []

-- The signature of the two bytes 1 and 2 is 64 times 3.
abbrev pub box : SignatureBox
box = record {
  untrusted_comment = codes "u";
  sig_struct = record {
    prehashed = false;
    keynum = kn;
    signature = record { bytes = replicate 64 3 };
  };
  trusted_comment = codes "ok";
  global_signature = record { bytes = replicate 64 154 };
}

abbrev pub file_of : Bytes → IoResult OpenFile
file_of bs =
    io_ok (record { size = io_ok (length bs); reader = failed interrupted_call ∷ chunk bs ∷ [] })

abbrev pub disk : Disk
disk = record {
  metadata_len = λ path. io_err other_kind;
  open_file = λ path.
      if list_eq path message_path
      then file_of message
      else if list_eq path (codes "m.minisig")
      then file_of (box_to_file_contents hex box)
      else io_err not_found;
}

message_read : read_message_file disk message_path ≡ ok message
unfolding read_message_file read_to_end list_eq
message_read = refl

read_message_file-delivered_example :
    (file : OpenFile) × (disk.open_file message_path ≡ io_ok file)
    × (delivered file.reader ≡ io_ok message)
    × (length message ≤ max_message_size_bytes)
read_message_file-delivered_example =
    read_message_file-delivered disk message_path message message_read

pub created :
    create_signature toy disk none sk kn message_path false (some (codes "ok")) (some (codes "u"))
    ≡ ok box
unfolding create_signature validate_comment_with_length is_printable text_len read_message_file
    list_eq sign verify digest global_signature_data new_box validate_untrusted_comment
    validate_trusted_comment
created = refl

verify_message_signature-create_signature_example :
    (pk : PublicKey) × (derive_public_key toy sk ≡ ok pk)
    × (verify_message_signature toy hex disk
          (record { keynum = kn; public_key = pk })
          box
          message_path
          false
          false
        ≡ ok none)
    × (verify_global_signature toy box pk ≡ ok tt)
    × IsBox box
verify_message_signature-create_signature_example =
    verify_message_signature-create_signature toy toy-ArePrimitives hex disk none sk kn message_path
      false false (some (codes "ok")) (some (codes "u")) box (replicate-IsArray 8 1 (omega arith))
      (λ h. h) created

abbrev pub options : VerifyOptions
options = record {
  public_key = key_base64 (hex_encode (pubkey_to_bytes pubkey));
  signature_file = codes "m.minisig";
  message_file = message_path;
  output = true;
  quiet = true;
  force_prehashed = false;
}

abbrev pub result : VerifyResult
result = verify_result pubkey box (some (buffer message))

key_loaded : load_public_key toy hex disk options.public_key ≡ ok pubkey
unfolding load_public_key pubkey_from_base64 decode_base64 hex_decode hex_encode pubkey_to_bytes
    copy_into pubkey_from_bytes slice
key_loaded = refl

signature_loaded : load_signature toy hex disk (codes "m.minisig") ≡ ok box
unfolding load_signature read_file_bounded list_eq box_to_file_contents encode_base64 hex_encode
    sig_to_bytes copy_into box_from_file_contents lines strip_prefix validate_untrusted_comment
    is_printable text_len decode_base64 hex_decode sig_from_bytes slice validate_trusted_comment
signature_loaded = refl

message_verified :
    verify_message_signature toy hex disk pubkey box message_path false true
    ≡ ok (some (buffer message))
unfolding verify_message_signature keynum_eq read_message_file verify digest
message_verified = refl

global_verified : verify_global_signature toy box pubkey.public_key ≡ ok tt
unfolding verify_global_signature verify digest sum global_signature_data utf8 list_eq
global_verified = refl

pub file_verified : verify_file toy hex disk options ≡ ok result
unfolding verify_file
file_verified = rw (key_loaded, signature_loaded, message_verified, global_verified) refl

signature_named : load_signature toy hex disk (default_signature_path message_path) ≡ ok box
unfolding default_signature_path
signature_named = signature_loaded

message_checked :
    verify_message_signature toy hex disk pubkey box message_path false false ≡ ok none
unfolding verify_message_signature keynum_eq read_message_file verify digest list_eq
message_checked = refl

batch_verified :
    verify_file_with_key toy hex disk message_path pubkey options
    ≡ ok (verify_result pubkey box none)
unfolding verify_file_with_key
batch_verified = rw (signature_named, message_checked, global_verified) refl

verify_message_signature-ok_example :
    (pubkey.keynum.bytes ≡ box.sig_struct.keynum.bytes)
    × (false ≡ true → box.sig_struct.prehashed ≡ true)
    × ((m : Bytes) × Verified toy disk pubkey.public_key box.sig_struct message_path true
          (some (buffer message))
          m)
verify_message_signature-ok_example =
    verify_message_signature-ok toy toy-ArePrimitives hex disk pubkey box message_path false true
      (some (buffer message)) message_verified

verify_file-ok_example :
    (k : PubkeyStruct) × (x : SignatureBox) × (load_public_key toy hex disk options.public_key
      ≡ ok k)
    × (load_signature toy hex disk options.signature_file ≡ ok x)
    × Established toy toy-ArePrimitives hex disk k x options.message_file options.force_prehashed
        options.output result
verify_file-ok_example = verify_file-ok toy toy-ArePrimitives hex disk options result file_verified

verify_multiple_files_iff_example :
    ((verify_multiple_files toy hex disk (message_path ∷ codes "n" ∷ []) options).0 ≡ ok tt) ↔ (
      (k : PubkeyStruct) × (load_public_key toy hex disk options.public_key ≡ ok k)
      × All (Verifies toy hex disk k options) (message_path ∷ codes "n" ∷ []))
verify_multiple_files_iff_example =
    verify_multiple_files_iff toy hex disk (message_path ∷ codes "n" ∷ []) options

abbrev outcomes : List (FileResult VerifyResult)
outcomes =
    record { file = message_path; result = ok result }
    ∷ record { file = codes "n"; result = err verification_failed }
    ∷ []

commented :
    generate_default_trusted_comment (some 1700000000) (codes "/tmp/m.txt") true
    ≡ ok (codes "timestamp:1700000000\tfile:m.txt\thashed")
unfolding generate_default_trusted_comment
commented = refl

timestamp_of-generate_default_trusted_comment_example :
    (t : ℕ) × (◌≡◌ {A = Option ℕ} (some 1700000000) (some t))
    × (timestamp_sanity_floor ≤ t)
    × (timestamp_of (codes "timestamp:1700000000\tfile:m.txt\thashed") ≡ some t)
timestamp_of-generate_default_trusted_comment_example =
    timestamp_of-generate_default_trusted_comment (some 1700000000) (codes "/tmp/m.txt") true
      (codes "timestamp:1700000000\tfile:m.txt\thashed") (λ t h. ground arith) commented
