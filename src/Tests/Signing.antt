-- ===== src/Tests/Signing.antt =====
-- Signing files of a small disk into a store.
use minisign_rs.Signature.{new_box, global_signature_data}
use minisign_rs.Crypto.{verify, sign}
use minisign_rs.Validation.{
  validate_trusted_comment, validate_untrusted_comment, is_printable, validate_comment_with_length,
}
use minisign_rs.Ops.Verify.{default_signature_path}
use minisign_rs.Base.{
  text_len, replicate-IsArray, ◌≡◌, ◌≢◌, refl, arith, false, none, some, [], ◌∷◌, All, codes,
}
use minisign_rs.Errors.{ok}
use minisign_rs.Keys.Seckey.{new_unencrypted}
use minisign_rs.Ops.Files.{read_message_file, io_ok}
use minisign_rs.Ops.Writing.{write_signature_file}
use minisign_rs.Ops.Paths.{Place, resolve_destination, reject_output_alias}
use minisign_rs.Ops.Paths.Distinct.{LeadsElsewhere, reject_output_alias-ok}
use minisign_rs.Ops.Sign.{create_signature, signature_path}
use minisign_rs.Ops.Sign.File.{SignOptions, SignResult, System, sign_result, sign_file_with_key}
use minisign_rs.Ops.Sign.File.Verifies.{IsSigned, sign_file_with_key-IsSigned}
use minisign_rs.Ops.Sign.Batch.{sign_multiple_files_with_key}
use minisign_rs.Ops.Sign.Batch.Apart.{UnchangedOrChecked, sign_multiple_files_with_key-AreChecked}
use minisign_rs.Tests.Models.{digest, hex, hex-IsBase64, toy, toy-ArePrimitives}
use minisign_rs.Tests.Operations.{kn, sk, message_path, box, disk}
use minisign_rs.Tests.Pairs.{calm, empty}
use minisign_rs.Tests.Generated.{flat}

abbrev pub system : System
system = record {
  disk = disk;
  directories = flat;
  clock = none;
  faults_at = λ path. calm;
  symlink_at = λ path. io_ok false;
  tmp_of = λ path. codes "tmp";
}

abbrev options : SignOptions
options = record {
  secret_key_file = codes "k";
  message_file = message_path;
  signature_file = none;
  prehashed = false;
  trusted_comment = some (codes "ok");
  untrusted_comment = some (codes "u");
  force = false;
  quiet = false;
}

abbrev result : SignResult
result = sign_result (codes "m.minisig") kn box

signed : (sign_file_with_key toy hex system message_path sk kn options empty).0 ≡ ok result
unfolding sign_file_with_key reject_output_alias signature_path default_signature_path
    create_signature validate_comment_with_length is_printable text_len read_message_file sign
    verify digest global_signature_data new_box validate_untrusted_comment validate_trusted_comment
    write_signature_file
signed = refl

not_temporary : signature_path message_path options.signature_file ≢ codes "tmp"
unfolding signature_path default_signature_path
not_temporary e = ground arith

sign_file_with_key-IsSigned_example :
    IsSigned toy toy-ArePrimitives hex hex-IsBase64 system
      (signature_path message_path options.signature_file)
      message_path
      kn
      sk
      false
      (sign_file_with_key toy hex system message_path sk kn options empty).1
    × (destination : Place) × (resolve_destination flat
          (signature_path message_path options.signature_file)
        ≡ ok destination)
    × All (LeadsElsewhere flat destination) (message_path ∷ codes "k" ∷ [])
sign_file_with_key-IsSigned_example =
    sign_file_with_key-IsSigned toy toy-ArePrimitives hex hex-IsBase64 system message_path sk kn
      options false empty result (replicate-IsArray 8 1 (omega arith)) (λ h. h) not_temporary signed

passed : reject_output_alias flat (codes "a") (codes "b" ∷ codes "c" ∷ []) ≡ ok tt
unfolding reject_output_alias
passed = refl

reject_output_alias-ok_example :
    (destination : Place) × (resolve_destination flat (codes "a") ≡ ok destination)
    × All (LeadsElsewhere flat destination) (codes "b" ∷ codes "c" ∷ [])
reject_output_alias-ok_example =
    reject_output_alias-ok flat (codes "a") (codes "b" ∷ codes "c" ∷ []) passed

sign_multiple_files_with_key-AreChecked_example :
    UnchangedOrChecked toy hex system
      (new_unencrypted kn sk)
      none
      options
      (message_path ∷ codes "n" ∷ message_path ∷ [])
      empty
      (sign_multiple_files_with_key toy hex system
        (message_path ∷ codes "n" ∷ message_path ∷ [])
        (new_unencrypted kn sk)
        options
        none
        empty).files
sign_multiple_files_with_key-AreChecked_example =
    sign_multiple_files_with_key-AreChecked toy hex system
      (message_path ∷ codes "n" ∷ message_path ∷ []) (new_unencrypted kn sk) options none empty
