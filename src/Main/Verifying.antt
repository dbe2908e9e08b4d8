-- ===== src/Main/Verifying.antt =====
-- `handle_verify` of rs/src/main.rs: from the flags to the exit code and what is shown.
pub mod Accepts
use minisign_rs.Base.{
  ℕ, Bool, true, false, not, ◌&&◌, Option, none, some, List, [], ◌∷◌, ◌++◌, map, if◌then◌else◌,
  Bytes, Text,
}
use minisign_rs.Errors.{
  FilePath, IoError, Error, Result, ok, err, ◌>>=◌, ◌>>◌, fail_if, map_err, io, usage,
  message_file_required, password_file_in_verify, public_key_required, signature_file_not_supported,
  output_of_several, write_to_stdout_failed,
}
use minisign_rs.Formats.{Base64}
use minisign_rs.Crypto.{Primitives}
use minisign_rs.Ops.Files.{Disk, IoResult}
use minisign_rs.Ops.Verify.{
  PublicKeySource, key_file, key_base64, MessageSource, buffer, VerifyOptions, VerifyResult,
  verify_file,
}
use minisign_rs.Ops.Verify.Batch.{Printed, verify_multiple_files}
use minisign_rs.Cli.{
  Cli, is_some, all_message_files, default_public_key_path, cli_default_signature_path,
}
use minisign_rs.Main.{or_io, or_default}

-- What is printed.
pub data Shown : Type 0 where
  default_key_used : Shown
  message_written : Bytes → Shown
  trusted_comment_alone : Text → Shown
  verified_with_key : Text → Text → Text → Shown
  of_batch : Printed → Shown

abbrev pub no_files : List FilePath → Bool
no_files [] = true
no_files (file ∷ files) = false

-- The key that the flags name, or else the one of the current directory, if it exists.
unfoldable pub public_key_source : Option FilePath → Option Text → Bool → Result PublicKeySource
public_key_source (some path) base64 exists = ok (key_file path)
public_key_source none (some s) exists = ok (key_base64 s)
public_key_source none none exists =
    if exists then ok (key_file default_public_key_path) else err (usage public_key_required)

-- The warning that the key of the current directory is used.
unfoldable pub source_warning : Cli → Bool → List Shown
source_warning cli exists =
    if not (is_some cli.public_key_file)
      && (not (is_some cli.public_key_base64) && (exists && not cli.quiet))
    then default_key_used ∷ []
    else []

-- The checks before any file is read.
unfoldable pub checked_source : Cli → Bool → Result PublicKeySource
unfolding public_key_source
checked_source cli exists = do
  fail_if (no_files (all_message_files cli)) (usage message_file_required)
  fail_if (is_some cli.password_file) (usage password_file_in_verify)
  public_key_source cli.public_key_file cli.public_key_base64 exists

abbrev pub verify_options : Cli → PublicKeySource → FilePath → FilePath → VerifyOptions
verify_options cli source signature_file message_file = record {
  public_key = source;
  signature_file = signature_file;
  message_file = message_file;
  output = cli.output;
  quiet = cli.quiet;
  force_prehashed = cli.prehashed;
}

abbrev pub to_shown : Result (Unit {0}) × List Printed → Result ℕ × List Shown
to_shown (outcome, printed) = (outcome >> ok 0, map of_batch printed)

-- The checks of the flags that several files refuse.
unfoldable pub several_allowed : Cli → Result (Unit {0})
several_allowed cli = do
  fail_if (is_some cli.signature_file) (usage signature_file_not_supported)
  fail_if cli.output (usage output_of_several)

module _ (p : Primitives) (b : Base64) (disk : Disk) where
  unfoldable pub verify_single : Cli → PublicKeySource → FilePath → Result VerifyResult
  verify_single cli source message_file = do
    default_signature ← cli_default_signature_path message_file
    verify_file p b disk
        (verify_options cli source (or_default cli.signature_file default_signature) message_file)

-- `stdout` is how writing the message to the standard output ends.
module _ (p : Primitives) (b : Base64) (disk : Disk) (stdout : IoResult (Unit {0})) where
  unfoldable pub written : Option MessageSource → Result ℕ × List Shown
  written none = (ok 0, [])
  written (some (buffer bytes)) =
      (or_io (λ e. io (write_to_stdout_failed e)) stdout >> ok 0, message_written bytes ∷ [])

  -- The output of one file, by the output mode.
  unfoldable pub show_result : Cli → VerifyResult → Result ℕ × List Shown
  unfolding written
  show_result cli r = if cli.output then written r.message_output else (
    ok 0,
    if cli.pretty_quiet
        then trusted_comment_alone r.trusted_comment ∷ []
        else if not cli.quiet
        then verified_with_key r.key_id r.key_id_words r.trusted_comment ∷ []
        else [],
  )

  unfoldable pub show_single : Cli → Result VerifyResult → Result ℕ × List Shown
  unfolding show_result
  show_single cli (err e) = (err e, [])
  show_single cli (ok r) = show_result cli r

  unfoldable pub verify_several :
      Cli → PublicKeySource → List FilePath → Result (Unit {0}) → Result ℕ × List Shown
  verify_several cli source files (err e) = (err e, [])
  verify_several cli source files (ok nothing) =
      to_shown (verify_multiple_files p b disk files (verify_options cli source [] []))

  unfoldable pub verify_files : Cli → PublicKeySource → List FilePath → Result ℕ × List Shown
  unfolding show_single verify_single verify_several several_allowed
  verify_files cli source (file ∷ []) = show_single cli (verify_single p b disk cli source file)
  verify_files cli source files = verify_several cli source files (several_allowed cli)

  unfoldable pub verify_from : Cli → Bool → Result PublicKeySource → Result ℕ × List Shown
  unfolding verify_files source_warning
  verify_from cli exists (err e) = (err e, [])
  verify_from cli exists (ok source) =
      let (code, shown) = verify_files cli source (all_message_files cli) in
      (code, source_warning cli exists ++ shown)

  -- `exists` says whether the key of the current directory exists.
  unfoldable pub handle_verify : Cli → Bool → Result ℕ × List Shown
  unfolding verify_from checked_source
  handle_verify cli exists = verify_from cli exists (checked_source cli exists)
