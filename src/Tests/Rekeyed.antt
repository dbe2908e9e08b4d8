-- ===== src/Tests/Rekeyed.antt =====
-- Changing the password of a key, and recreating its public key file.
use minisign_rs.Validation.{is_printable, validate_untrusted_comment}
use minisign_rs.Ops.Paths.{reject_output_alias}
use minisign_rs.Formats.{from_le_bytes, read_u64_le, decode_base64_into, to_le_bytes}
use minisign_rs.Base.{
  text_len, slice, lines, copy_into, replicate-IsArray, ◌≡◌, ◌⊎◌, refl, arith, true, false, none,
  some, [], replicate, Text, codes, utf8, if◌then◌else◌, list_eq,
}
use minisign_rs.Errors.{ok, is_err, other_kind}
use minisign_rs.Crypto.{hex_number, PublicKey}
use minisign_rs.Keys.Pubkey.{pubkey_to_file_contents, pubkey_from_file_contents}
use minisign_rs.Keys.Seckey.{
  get_unencrypted_secret_key, seckey_from_bytes, seckey_from_file_contents, SeckeyStruct,
  new_unencrypted, seckey_to_bytes,
}
use minisign_rs.Keys.Sealing.{extract_key}
use minisign_rs.Signature.{line}
use minisign_rs.Ops.Files.{Disk, io_ok, io_err, load_secret_key}
use minisign_rs.Ops.Writing.{write_public_key_file, Faults, default_permissions}
use minisign_rs.Ops.Modes.{pubkey_comment, protected}
use minisign_rs.Ops.Sign.{derive_public_key}
use minisign_rs.Ops.Sign.File.{System}
use minisign_rs.Ops.Change.{ChangeOptions, change_with_log_n}
use minisign_rs.Ops.Change.Keeps.{Holds, change_with_log_n-Holds}
use minisign_rs.Ops.Recreate.{RecreateOptions, RecreateResult, recreate_with_key}
use minisign_rs.Ops.Recreate.Writes.{recreate_with_key-writes}
use minisign_rs.Crypto.{to_key_id}
use minisign_rs.Tests.Models.{
  hex_decode, hex_decode_slice, hex, hex-IsBase64, hex_encode, toy, toy-ArePrimitives,
}
use minisign_rs.Tests.Operations.{kn, sk, file_of}
use minisign_rs.Tests.Pairs.{calm, empty}
use minisign_rs.Tests.Generated.{flat}

abbrev pub plain_key : SeckeyStruct
plain_key = new_unencrypted kn sk

abbrev contents : Text
contents = line (codes "untrusted comment: c") (line (hex_encode (seckey_to_bytes plain_key)) [])

abbrev pub key_disk : Disk
key_disk = record {
  metadata_len = λ path. io_err other_kind;
  open_file = λ path. file_of (utf8 contents);
}

-- The disk fills up.
abbrev full : Faults
full = record calm { write_fault = some (3, other_kind) }

abbrev pub system : System
system = record {
  disk = key_disk;
  directories = flat;
  clock = none;
  faults_at = λ path. if list_eq path (codes "k") then full else calm;
  symlink_at = λ path. io_ok false;
  tmp_of = λ path. codes "tmp";
}

abbrev options : ChangeOptions
options = record { secret_key_file = codes "k"; encryption = protected; force_weak_kdf = false }

pub loaded : load_secret_key key_disk hex (codes "k") ≡ ok plain_key
unfolding load_secret_key utf8 hex_encode seckey_to_bytes copy_into new_unencrypted to_le_bytes
    seckey_from_file_contents lines decode_base64_into hex_decode_slice hex_decode seckey_from_bytes
    slice read_u64_le from_le_bytes
loaded = refl

opened : extract_key toy plain_key none ≡ ok (sk, kn)
unfolding extract_key new_unencrypted get_unencrypted_secret_key
opened = refl

change_with_log_n-Holds_example :
    ((is_err
          (change_with_log_n toy hex false system options none
            (some (codes "pw"))
            (replicate 32 9)
            10
            empty).0
        ≡ true)
      × ((change_with_log_n toy hex false system options none
              (some (codes "pw"))
              (replicate 32 9)
              10
              empty).1
            options.secret_key_file
          ≡ empty options.secret_key_file))
    ⊎ Holds toy toy-ArePrimitives hex hex-IsBase64 false system options.secret_key_file
        (some (codes "pw"))
        (sk, kn)
        (change_with_log_n toy hex false system options none
          (some (codes "pw"))
          (replicate 32 9)
          10
          empty).1
change_with_log_n-Holds_example =
    change_with_log_n-Holds toy toy-ArePrimitives hex hex-IsBase64 false system options none
      (some (codes "pw")) (replicate 32 9) 10 empty plain_key sk kn
      (replicate-IsArray 8 1 (omega arith)) (replicate-IsArray 64 7 (omega arith))
      (replicate-IsArray 32 9 (omega arith)) (λ e. ground arith) loaded opened

abbrev again : RecreateOptions
again = record {
  secret_key_file = codes "k";
  public_key_file = codes "kp";
  comment = none;
  force = false;
}

abbrev result : RecreateResult
result = record { public_key_file = codes "kp"; keynum_hex = to_key_id kn }

recreated_lem : (recreate_with_key toy hex system plain_key again none empty).0 ≡ ok result
unfolding recreate_with_key reject_output_alias extract_key new_unencrypted
    get_unencrypted_secret_key pubkey_to_file_contents validate_untrusted_comment is_printable
    pubkey_comment to_key_id hex_number from_le_bytes text_len write_public_key_file
recreated_lem = refl

recreate_with_key-writes_example :
    (text : Text) × (pk : PublicKey) × ((recreate_with_key toy hex system plain_key again none
          empty).1
        again.public_key_file
      ≡ some (record { contents = utf8 text; mode = default_permissions }))
    × (pubkey_from_file_contents hex text ≡ ok (record { keynum = kn; public_key = pk }))
    × (derive_public_key toy sk ≡ ok pk)
recreate_with_key-writes_example =
    recreate_with_key-writes toy toy-ArePrimitives hex hex-IsBase64 system plain_key again none
      empty sk kn result (replicate-IsArray 8 1 (omega arith)) (λ e. ground arith) opened
      recreated_lem
