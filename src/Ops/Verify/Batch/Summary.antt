-- ===== src/Ops/Verify/Batch/Summary.antt =====
-- The outcome of a batch against the outcomes of its files.
use minisign_rs.Base.{
  ℕ, ◌≡◌, ◌≢◌, refl, ap, ◌∙◌, ◌↔◌, ◌⊎◌, Bool, true, false, List, [], ◌∷◌, arith, if◌then◌else◌,
  length, All, Bool-cases, inl, inr,
}
use minisign_rs.Errors.{
  FilePath, Result, ok, err, is_err, partial_failure, total_failure, Result-cases,
}
use minisign_rs.Formats.{Base64}
use minisign_rs.Crypto.{Primitives}
use minisign_rs.Keys.Pubkey.{PubkeyStruct}
use minisign_rs.Ops.Files.{Disk}
use minisign_rs.Ops.Verify.{VerifyOptions, VerifyResult, load_public_key, verify_file_with_key}
use minisign_rs.Ops.Verify.Batch.{
  FileResult, summary_of, print_outcome, failures, format_batch_summary, all_failed, print_summary,
  collect_verify_results, report_one, verify_loaded, verify_batch, verify_multiple_files,
}

outcome_of :
    (every : Bool) (n : ℕ) (fs : List FilePath)
    → (fs ≡ [] → (print_outcome every (summary_of n fs)).0 ≡ ok tt)
      × (fs ≢ []
          → (print_outcome every (summary_of n fs)).0
            ≡ (if every then err total_failure else err partial_failure))
unfolding print_outcome summary_of
outcome_of every n [] = ((λ h. refl), (λ h. absurd (h refl)))
outcome_of every n (f ∷ fs) = ((λ h. absurd (ground arith)), (λ h. refl))

empty_or_not : (fs : List FilePath) → (fs ≡ []) ⊎ (fs ≢ [])
empty_or_not [] = inl refl
empty_or_not (f ∷ fs) = inr (λ h. ground arith)

report_one_iff :
    (file : FilePath) (r : Result VerifyResult) (o : VerifyOptions)
    → ((report_one file r o).0 ≡ ok tt) ↔ ((a : VerifyResult) × (r ≡ ok a))
unfolding report_one
report_one_iff file (ok a) o = ((λ h. (a, refl)), (λ h. refl))
report_one_iff file (err e) o = ((λ h. cc), (λ (a, h). cc))

module _ {ℓ} {A : Type ℓ} where
  abbrev pub Succeeded : FileResult A → Type 0
  Succeeded r = is_err r.result ≡ false

  abbrev pub Failed : FileResult A → Type 0
  Failed r = is_err r.result ≡ true

  failures_iff : (rs : List (FileResult A)) → (failures rs ≡ []) ↔ All Succeeded rs
  unfolding failures
  failures_iff [] = ((λ h. tt), (λ h. refl))
  failures_iff (r ∷ rs) = elim (Bool-cases (is_err r.result)) [
    | inl bad ↦ rw bad ((λ h. absurd (ground arith)), (λ h. absurd (ground arith)))
    | inr good ↦ rw good ((λ h. (refl, (failures_iff rs).0 h)), (λ h. (failures_iff rs).1 h.1))
  ]

  all_failed_iff : (rs : List (FileResult A)) → (all_failed rs ≡ true) ↔ All Failed rs
  unfolding all_failed
  all_failed_iff [] = ((λ h. tt), (λ h. refl))
  all_failed_iff (r ∷ rs) = elim (Bool-cases (is_err r.result)) [
    | inl bad ↦ rw bad ((λ h. (refl, (all_failed_iff rs).0 h)), (λ h. (all_failed_iff rs).1 h.1))
    | inr good ↦ rw good ((λ h. absurd (ground arith)), (λ h. absurd (ground arith)))
  ]

  not_both : (rs : List (FileResult A)) → All Failed rs → All Succeeded rs → rs ≡ []
  not_both [] bad good = refl
  not_both (r ∷ rs) bad good = absurd (ground (arith, bad.0, good.0))

  some_failed : (rs : List (FileResult A)) → failures rs ≢ [] → rs ≢ []
  some_failed [] h same = h (unfold failures in refl)
  some_failed (r ∷ rs) h same = ground arith

  outcome_lem :
      (rs : List (FileResult A))
      → (failures rs ≡ [] → (print_summary rs).0 ≡ ok tt)
        × (failures rs ≢ []
            → (print_summary rs).0
              ≡ (if all_failed rs then err total_failure else err partial_failure))
  unfolding print_summary format_batch_summary
  outcome_lem rs = outcome_of (all_failed rs) (length rs) (failures rs)

  -- The outcome of a batch: it is a success exactly if every file succeeded, a total failure
  -- exactly if there is a file and every file failed, and else a partial failure.
  pub print_summary_lem :
      (rs : List (FileResult A))
      → (((print_summary rs).0 ≡ ok tt) ↔ All Succeeded rs)
        × (((print_summary rs).0 ≡ err total_failure) ↔ ((rs ≢ []) × All Failed rs))
  print_summary_lem rs =
      let (all_good, some_bad) = outcome_lem rs in
      let (good, good') = failures_iff rs in
      let (bad, bad') = all_failed_iff rs in
      elim (empty_or_not (failures rs)) [
        | inl none_failed ↦ (
          ((λ h. good none_failed), (λ h. all_good none_failed)),
          (
            (λ h. absurd (ground (arith, all_good none_failed))),
            (λ h. absurd (h.0 (not_both rs h.1 (good none_failed)))),
          ),
        )
        | inr failed ↦ (
          ((λ h. absurd (ground (arith, some_bad failed))), (λ h. absurd (failed (good' h)))),
          (
            (λ h. (some_failed rs failed, bad (ground (arith, some_bad failed)))),
            (λ h. some_bad failed ∙ rw (bad' h.1) refl),
          ),
        )
      ]

module _ (p : Primitives) (b : Base64) (disk : Disk) where
  -- A file is verified with a key.
  abbrev pub Verifies : PubkeyStruct → VerifyOptions → FilePath → Type 0
  Verifies k o file = (r : VerifyResult) × (verify_file_with_key p b disk file k o ≡ ok r)

  result_of_success :
      (k : PubkeyStruct) (o : VerifyOptions) (file : FilePath)
      → is_err (verify_file_with_key p b disk file k o) ≡ false
      → Verifies k o file
  result_of_success k o file h = elim (Result-cases (verify_file_with_key p b disk file k o)) [
    | inl found ↦ found
    | inr (e, failed) ↦ absurd (ground (arith, failed))
  ]

  collect_iff :
      (files : List FilePath) (k : PubkeyStruct) (o : VerifyOptions)
      → All Succeeded (collect_verify_results p b disk files k o).0 ↔ All (Verifies k o) files
  unfolding collect_verify_results
  collect_iff [] k o = ((λ h. tt), (λ h. tt))
  collect_iff (file ∷ files) k o = (
    (λ h. (result_of_success k o file h.0, (collect_iff files k o).0 h.1)),
    (λ h. (ap is_err h.0.1, (collect_iff files k o).1 h.1)),
  )

  verify_batch_iff :
      (files : List FilePath) (k : PubkeyStruct) (o : VerifyOptions)
      → ((verify_batch p b disk files k o).0 ≡ ok tt) ↔ All (Verifies k o) files
  unfolding verify_batch
  verify_batch_iff [] k o = ((λ h. tt), (λ h. refl))
  verify_batch_iff (file ∷ []) k o =
      let one = report_one_iff file (verify_file_with_key p b disk file k o) o in
      ((λ h. (one.0 h, tt)), (λ h. one.1 h.0))
  verify_batch_iff (file ∷ file' ∷ files) k o =
      let all_files = file ∷ file' ∷ files in
      let outcome = (print_summary_lem (collect_verify_results p b disk all_files k o).0).0 in
      let each = collect_iff all_files k o in
      ((λ h. each.0 (outcome.0 h)), (λ h. outcome.1 (each.1 h)))

  verify_loaded_iff :
      (files : List FilePath) (o : VerifyOptions) (loaded : Result PubkeyStruct)
      → ((verify_loaded p b disk files o loaded).0 ≡ ok tt)
        ↔ ((k : PubkeyStruct) × (loaded ≡ ok k) × All (Verifies k o) files)
  unfolding verify_loaded
  verify_loaded_iff files o (ok k) = (
    (λ h. (k, refl, (verify_batch_iff files k o).0 h)),
    (λ (k', same, good).
        let back : k' ≡ k = cc in (verify_batch_iff files k o).1 (rw (← back) good)),
  )
  verify_loaded_iff files o (err e) = ((λ h. cc), (λ (k', bad, good). cc))

  -- A batch succeeds exactly if the key is loaded and every file of the batch is verified with
  -- it; it does so for no file, for one and for many, and whether or not it is quiet.
  pub verify_multiple_files_iff :
      (files : List FilePath) (o : VerifyOptions)
      → ((verify_multiple_files p b disk files o).0 ≡ ok tt) ↔ (
          (k : PubkeyStruct) × (load_public_key p b disk o.public_key ≡ ok k)
          × All (Verifies k o) files)
  unfolding verify_multiple_files
  verify_multiple_files_iff files o =
      verify_loaded_iff files o (load_public_key p b disk o.public_key)
