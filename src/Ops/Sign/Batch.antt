-- ===== src/Ops/Sign/Batch.antt =====
-- The batch of rs/src/ops/sign.rs, with the files in order: repeated files are dropped, every path
-- that will be written is checked, and only then is anything signed. The parallel version gives
-- the results in the same order. A run gives its result, the store and what it prints; `summary`
-- stands for the format of this module too.
pub mod Signs
pub mod Covers
pub mod Apart
use minisign_rs.Base.{
  ℕ, Bool, true, false, not, ◌&&◌, ◌||◌, Option, none, some, List, [], ◌∷◌, ◌++◌, if◌then◌else◌,
  Bytes,
}
use minisign_rs.Errors.{
  FilePath, Result, ok, err, ◌>>=◌, ◌>>◌, fail_if, file_read, usage, signature_file_not_supported,
}
use minisign_rs.Formats.{Base64}
use minisign_rs.Crypto.{Primitives, SecretKey, KeyNum, to_key_id}
use minisign_rs.Wordlist.{keynum_to_words}
use minisign_rs.Keys.Seckey.{SeckeyStruct}
use minisign_rs.Keys.Sealing.{extract_key}
use minisign_rs.Ops.Files.{
  IoResult, io_ok, io_err, or_file_read, load_secret_key, sanitised_path_display,
}
use minisign_rs.Ops.Writing.{Store}
use minisign_rs.Ops.Paths.{Place, place_eq, reject_output_alias}
use minisign_rs.Ops.Verify.Batch.{
  FileResult, Printed, signing_with_key, signed_file, failed_file, print_summary,
}
use minisign_rs.Ops.Sign.{signature_path}
use minisign_rs.Ops.Sign.File.{SignOptions, SignResult, System, sign_file_with_key, sign_with_key}

-- `seen.insert` gives whether the place is new.
unfoldable pub seen_before : Place → List Place → Bool
unfolding place_eq
seen_before place [] = false
seen_before place (s ∷ seen) = place_eq place s || seen_before place seen

unfoldable pub report_file_result : FilePath → Result SignResult → SignOptions → List Printed
report_file_result file (ok r) options =
    if options.quiet then [] else signed_file (sanitised_path_display file) ∷ []
report_file_result file (err e) options = failed_file (sanitised_path_display file) e ∷ []

-- What a run of the batch gives.
pub record BatchRun : Type 0 where
  pub outcome : Result (Unit {0})
  pub files : Store
  pub printed : List Printed

abbrev pub stopped : Result (Unit {0}) → Store → BatchRun
stopped outcome store = record { outcome = outcome; files = store; printed = [] }

-- The only file of a batch is reported whatever the options say, and its error is returned.
unfoldable pub report_only : FilePath → Result SignResult × Store → BatchRun
report_only file (ok r, store) = record {
  outcome = ok tt;
  files = store;
  printed = signed_file (sanitised_path_display file) ∷ [];
}
report_only file (err e, store) = stopped (err e) store

abbrev pub with_rest : FilePath → Result (List FilePath) → Result (List FilePath)
with_rest file rest = rest >>= λ files. ok (file ∷ files)

module _ (p : Primitives) (b : Base64) (system : System) where
  open system use {disk, directories}
  open directories use {canonicalize}

  -- The loop that drops repeated files; the first file that is not there is an error.
  unfoldable pub deduplicate : List Place → List FilePath → Result (List FilePath)
  unfolding seen_before
  deduplicate seen [] = ok []
  deduplicate seen (file ∷ files) =
      let dropped = deduplicate seen files in
      let kept : Place → Result (List FilePath) =
        λ place. with_rest file (deduplicate (place ∷ seen) files) in
      or_file_read file (canonicalize file) >>= λ place.
      if seen_before place seen then dropped else kept place

  -- Every path that will be written, against every message and the key.
  unfoldable pub check_outputs : SignOptions → List FilePath → List FilePath → Result (Unit {0})
  check_outputs options protected_inputs [] = ok tt
  check_outputs options protected_inputs (file ∷ files) = do
    reject_output_alias directories (signature_path file options.signature_file) protected_inputs
    check_outputs options protected_inputs files

  abbrev pub several : List FilePath → Bool
  several [] = false
  several (file ∷ []) = false
  several (file ∷ next ∷ files) = true

  abbrev pub is_given : Option FilePath → Bool
  is_given none = false
  is_given (some path) = true

  -- The files that will be signed, once all checks have passed.
  unfoldable pub checked_files : SignOptions → List FilePath → Result (List FilePath)
  unfolding deduplicate check_outputs
  checked_files options files = do
    deduped ← deduplicate [] files
    fail_if (several deduped && is_given options.signature_file)
        (usage signature_file_not_supported)
    check_outputs options (deduped ++ (options.secret_key_file ∷ [])) deduped
    ok deduped

  unfoldable pub collect_sign_results :
      List FilePath
      → SecretKey
      → KeyNum
      → SignOptions
      → Store
      → List (FileResult SignResult) × Store × List Printed
  unfolding report_file_result
  collect_sign_results [] secret_key keynum options store = ([], store, [])
  collect_sign_results (file ∷ files) secret_key keynum options store =
      let (result, s) = sign_file_with_key p b system file secret_key keynum options store in
      let (results, last, printed) = collect_sign_results files secret_key keynum options s in
      (
        record { file = file; result = result } ∷ results,
        last,
        report_file_result file result options ++ printed,
      )

  -- What is printed before the first file.
  unfoldable pub show_signing_key : KeyNum → SignOptions → List Printed
  show_signing_key keynum options =
      if options.quiet
      then []
      else signing_with_key (to_key_id keynum) (keynum_to_words keynum) ∷ []

  -- Several files, with what the opening of the key gave.
  unfoldable pub sign_all :
      List FilePath → Result (SecretKey × KeyNum) → SignOptions → Store → BatchRun
  unfolding collect_sign_results show_signing_key print_summary
  sign_all files (err e) options store = stopped (err e) store
  sign_all files (ok (secret_key, keynum)) options store =
      let (results, last, printed) = collect_sign_results files secret_key keynum options store in
      let (outcome, summary_lines) = print_summary results in
      record {
        outcome = outcome;
        files = last;
        printed = show_signing_key keynum options ++ (printed ++ summary_lines);
      }

  -- `sign_multiple_files_with_key` with what the checks gave.
  unfoldable pub sign_checked :
      Result (List FilePath) → SeckeyStruct → SignOptions → Option Bytes → Store → BatchRun
  unfolding report_only sign_all
  sign_checked (err e) seckey options password store = stopped (err e) store
  sign_checked (ok (file ∷ [])) seckey options password store =
      report_only file (sign_with_key p b system file seckey options password store)
  sign_checked (ok files) seckey options password store =
      sign_all files (extract_key p seckey password) options store

  unfoldable pub sign_multiple_files_with_key :
      List FilePath → SeckeyStruct → SignOptions → Option Bytes → Store → BatchRun
  unfolding checked_files sign_checked
  sign_multiple_files_with_key files seckey options password store =
      sign_checked (checked_files options files) seckey options password store

  unfoldable pub sign_loaded :
      List FilePath → Result SeckeyStruct → SignOptions → Option Bytes → Store → BatchRun
  unfolding sign_multiple_files_with_key
  sign_loaded files (err e) options password store = stopped (err e) store
  sign_loaded files (ok seckey) options password store =
      sign_multiple_files_with_key files seckey options password store

  unfoldable pub sign_multiple_files : List FilePath → SignOptions → Option Bytes → Store → BatchRun
  unfolding sign_loaded
  sign_multiple_files files options password store =
      sign_loaded files (load_secret_key disk b options.secret_key_file) options password store
