-- ===== src/Ops/Verify/Batch.antt =====
-- The batch of rs/src/ops/verify.rs: every file is verified, in order, and the failures are
-- counted and named. A run gives its result and what it prints. The parallel version gives the
-- results in the same order, and only prints in another.
pub mod Summary
use minisign_rs.Base.{
  ℕ, ◌-◌, ◌==◌, Bool, true, false, not, Option, none, some, List, [], ◌∷◌, ◌++◌, map, if◌then◌else◌,
  length, Text,
}
use minisign_rs.Errors.{
  FilePath, Error, Result, ok, err, ◌>>=◌, ◌>>◌, is_err, partial_failure, total_failure,
}
use minisign_rs.Formats.{Base64}
use minisign_rs.Crypto.{Primitives, to_key_id}
use minisign_rs.Keys.Pubkey.{PubkeyStruct}
use minisign_rs.Wordlist.{keynum_to_words}
use minisign_rs.Ops.Files.{Disk, sanitised_path_display}
use minisign_rs.Ops.Verify.{VerifyOptions, VerifyResult, load_public_key, verify_file_with_key}

-- A result for a file, of a verification here and of a signing in rs/src/ops/sign.rs.
pub record FileResult {ℓ} (A : Type ℓ) : Type ℓ where
  pub file : FilePath
  pub result : Result A

abbrev pub FileVerifyResult : Type 0
FileVerifyResult = FileResult VerifyResult

-- What is printed, by its format and what is put into it.
pub data Printed : Type 0 where
  verifying_with_key signing_with_key : Text → Text → Printed
  verified_file : Text → Text → Printed
  signed_file : Text → Printed
  failed_file : Text → Error → Printed
  summary : ℕ → ℕ → List Text → Printed

-- `filter_map(|r| r.result.as_ref().err().map(|_| &r.file))`
unfoldable pub failures {ℓ} : {A : Type ℓ} → List (FileResult A) → List FilePath
failures [] = []
failures (r ∷ rs) = let rest = failures rs in if is_err r.result then r.file ∷ rest else rest

-- The counts and the names that a summary shows, from the number of files and the failed ones.
unfoldable pub summary_of : ℕ → List FilePath → Option (ℕ × ℕ × List Text)
summary_of n [] = none
summary_of n (f ∷ fs) =
    some (n - length (f ∷ fs), length (f ∷ fs), map sanitised_path_display (f ∷ fs))

unfoldable pub format_batch_summary {ℓ} :
    {A : Type ℓ} → List (FileResult A) → Option (ℕ × ℕ × List Text)
unfolding failures summary_of
format_batch_summary results = summary_of (length results) (failures results)

-- `results.iter().all(|r| r.result.is_err())`
unfoldable pub all_failed {ℓ} : {A : Type ℓ} → List (FileResult A) → Bool
all_failed [] = true
all_failed (r ∷ rs) = if is_err r.result then all_failed rs else false

-- `print_summary` behind the summary and the test of all results.
unfoldable pub print_outcome : Bool → Option (ℕ × ℕ × List Text) → Result (Unit {0}) × List Printed
print_outcome every none = (ok tt, [])
print_outcome every (some (good, bad, names)) =
    (if every then err total_failure else err partial_failure, summary good bad names ∷ [])

unfoldable pub print_summary {ℓ} :
    {A : Type ℓ} → List (FileResult A) → Result (Unit {0}) × List Printed
unfolding format_batch_summary all_failed print_outcome
print_summary results = print_outcome (all_failed results) (format_batch_summary results)

unfoldable pub report_file_result : FilePath → Result VerifyResult → VerifyOptions → List Printed
report_file_result file (ok r) options =
    if options.quiet then [] else verified_file (sanitised_path_display file) r.trusted_comment ∷ []
report_file_result file (err e) options = failed_file (sanitised_path_display file) e ∷ []

-- One file is reported without a summary, and its error is returned as it is.
unfoldable pub report_one :
    FilePath → Result VerifyResult → VerifyOptions → Result (Unit {0}) × List Printed
unfolding report_file_result
report_one file (ok r) options = (ok tt, report_file_result file (ok r) options)
report_one file (err e) options = (err e, [])

module _ (p : Primitives) (b : Base64) (disk : Disk) where
  unfoldable pub collect_verify_results :
      List FilePath → PubkeyStruct → VerifyOptions → List FileVerifyResult × List Printed
  unfolding report_file_result
  collect_verify_results [] pubkey options = ([], [])
  collect_verify_results (file ∷ files) pubkey options =
      let result = verify_file_with_key p b disk file pubkey options in
      let (results, printed) = collect_verify_results files pubkey options in
      (
        record { file = file; result = result } ∷ results,
        report_file_result file result options ++ printed,
      )

  -- What is printed before the first file.
  unfoldable pub show_key : PubkeyStruct → VerifyOptions → List Printed
  show_key pubkey options =
      if options.quiet
      then []
      else verifying_with_key (to_key_id pubkey.keynum) (keynum_to_words pubkey.keynum) ∷ []

  unfoldable pub verify_batch :
      List FilePath → PubkeyStruct → VerifyOptions → Result (Unit {0}) × List Printed
  unfolding report_one collect_verify_results print_summary
  verify_batch (file ∷ []) pubkey options =
      report_one file (verify_file_with_key p b disk file pubkey options) options
  verify_batch files pubkey options =
      let (results, printed) = collect_verify_results files pubkey options in
      let (outcome, last) = print_summary results in (outcome, printed ++ last)

  -- `verify_multiple_files` with what the loading of the key gave.
  unfoldable pub verify_loaded :
      List FilePath → VerifyOptions → Result PubkeyStruct → Result (Unit {0}) × List Printed
  unfolding verify_batch show_key
  verify_loaded files options (err e) = (err e, [])
  verify_loaded files options (ok pubkey) =
      let (outcome, printed) = verify_batch files pubkey options in
      (outcome, show_key pubkey options ++ printed)

  unfoldable pub verify_multiple_files :
      List FilePath → VerifyOptions → Result (Unit {0}) × List Printed
  unfolding verify_loaded
  verify_multiple_files files options =
      verify_loaded files options (load_public_key p b disk options.public_key)
