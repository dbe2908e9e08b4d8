-- ===== src/Ops/Sign/Batch/Signs.antt =====
-- Which files the batch of rs/src/ops/sign.rs signs, as a relation between stores.
use minisign_rs.Base.{◌≡◌, refl, ◌⊎◌, inl, inr, Option, List, [], ◌∷◌, Bytes}
use minisign_rs.Errors.{FilePath, Result, ok, err}
use minisign_rs.Formats.{Base64}
use minisign_rs.Crypto.{Primitives, SecretKey, KeyNum}
use minisign_rs.Keys.Seckey.{SeckeyStruct}
use minisign_rs.Keys.Sealing.{extract_key}
use minisign_rs.Ops.Writing.{Store}
use minisign_rs.Ops.Sign.File.{
  SignOptions, SignResult, System, sign_file_with_key, sign_with_key, sign_opened,
}
use minisign_rs.Ops.Sign.Batch.{collect_sign_results, sign_all, report_only, sign_checked}

module _ (p : Primitives) (b : Base64) (system : System) where
  -- From one store to another by signing each file of a list once, in order, with one key.
  pub data Signs (sk : SecretKey) (kn : KeyNum) (options : SignOptions)
      : List FilePath → Store → Store → Type 0 where
    all_signed : (s : Store) → Signs sk kn options [] s s
    next_signed :
        (file : FilePath) (files : List FilePath) (s s' : Store)
        → Signs sk kn options files (sign_file_with_key p b system file sk kn options s).1 s'
        → Signs sk kn options (file ∷ files) s s'

  -- Nothing was written, or the key was opened and the files were signed.
  abbrev pub UnchangedOrSigns :
      SeckeyStruct → Option Bytes → SignOptions → List FilePath → Store → Store → Type 0
  UnchangedOrSigns seckey password options files s s' =
      (s' ≡ s)
      ⊎ ((sk : SecretKey) × (kn : KeyNum) × (extract_key p seckey password ≡ ok (sk, kn))
          × Signs sk kn options files s s')

  collect_sign_results-Signs :
      (sk : SecretKey) (kn : KeyNum) (options : SignOptions) (files : List FilePath) (s : Store)
      → Signs sk kn options files s (collect_sign_results p b system files sk kn options s).1
  unfolding collect_sign_results
  collect_sign_results-Signs sk kn options [] s = all_signed s
  collect_sign_results-Signs sk kn options (file ∷ files) s = next_signed file files s _ (
      collect_sign_results-Signs sk kn options files
        (sign_file_with_key p b system file sk kn options s).1)

  sign_all-UnchangedOrSigns :
      (files : List FilePath) (seckey : SeckeyStruct) (opened : Result (SecretKey × KeyNum))
      (options : SignOptions) (password : Option Bytes) (s : Store)
      → extract_key p seckey password ≡ opened
      → UnchangedOrSigns seckey password options files s
          (sign_all p b system files opened options s).files
  unfolding sign_all
  sign_all-UnchangedOrSigns files seckey (err e) options password s same = inl refl
  sign_all-UnchangedOrSigns files seckey (ok (sk, kn)) options password s same =
      inr (sk, kn, same, collect_sign_results-Signs sk kn options files s)

  report_only-files :
      (file : FilePath) (x : Result SignResult × Store) → (report_only file x).files ≡ x.1
  unfolding report_only
  report_only-files file (ok r, s) = refl
  report_only-files file (err e, s) = refl

  sign_opened-UnchangedOrSigns :
      (file : FilePath) (seckey : SeckeyStruct) (opened : Result (SecretKey × KeyNum))
      (options : SignOptions) (password : Option Bytes) (s : Store)
      → extract_key p seckey password ≡ opened
      → UnchangedOrSigns seckey password options
          (file ∷ [])
          s
          (sign_opened p b system file opened options s).1
  unfolding sign_opened
  sign_opened-UnchangedOrSigns file seckey (err e) options password s same = inl refl
  sign_opened-UnchangedOrSigns file seckey (ok (sk, kn)) options password s same =
      inr (sk, kn, same, next_signed file [] s _ (all_signed _))

  -- The files that passed the checks are those that are signed.
  pub sign_checked-UnchangedOrSigns :
      (files : List FilePath) (seckey : SeckeyStruct) (options : SignOptions)
      (password : Option Bytes) (s : Store)
      → UnchangedOrSigns seckey password options files s
          (sign_checked p b system (ok files) seckey options password s).files
  unfolding sign_checked sign_with_key
  sign_checked-UnchangedOrSigns [] seckey options password s =
      sign_all-UnchangedOrSigns [] seckey (extract_key p seckey password) options password s refl
  sign_checked-UnchangedOrSigns (file ∷ []) seckey options password s =
      let x = sign_opened p b system file (extract_key p seckey password) options s in
      rw (report_only-files file x) (
        sign_opened-UnchangedOrSigns file seckey (extract_key p seckey password) options password s
          refl)
  sign_checked-UnchangedOrSigns (file ∷ next ∷ files) seckey options password s =
      sign_all-UnchangedOrSigns (file ∷ next ∷ files) seckey (extract_key p seckey password) options
        password s refl
