-- ===== src/Ops/Sign/Batch/Apart.antt =====
-- What the checks of the batch of rs/src/ops/sign.rs rule out before anything is written.
use minisign_rs.Base.{
  ◌≡◌, ◌≢◌, refl, sym, ap, ◌∙◌, ◌⊎◌, inl, inr, false, ◌&&◌, Option, List, [], ◌∷◌, ◌++◌, All, arith,
  Bytes,
}
use minisign_rs.Errors.{FilePath, Result, ok, err, >>=-eq-ok, fail_if-ok}
use minisign_rs.Formats.{Base64}
use minisign_rs.Crypto.{Primitives, SecretKey, KeyNum}
use minisign_rs.Keys.Seckey.{SeckeyStruct}
use minisign_rs.Keys.Sealing.{extract_key}
use minisign_rs.Ops.Files.{io_ok, or_file_read}
use minisign_rs.Ops.Writing.{Store}
use minisign_rs.Ops.Paths.{Place, place_eq, reject_output_alias, resolve_destination}
use minisign_rs.Ops.Paths.Distinct.{LeadsElsewhere, differs, reject_output_alias-ok}
use minisign_rs.Ops.Sign.{signature_path}
use minisign_rs.Ops.Sign.File.{SignOptions, System}
use minisign_rs.Ops.Sign.Batch.Covers.{
  ok_inj, branch, or_file_read-ok, AreCovered, deduplicate-AreCovered,
}
use minisign_rs.Ops.Sign.Batch.Signs.{Signs, sign_checked-UnchangedOrSigns}
use minisign_rs.Ops.Sign.Batch.{
  seen_before, deduplicate, check_outputs, checked_files, several, is_given, sign_checked,
  sign_multiple_files_with_key,
}

module _ (p : Primitives) (b : Base64) (system : System) where
  open system use {directories}
  open directories use {canonicalize}

  -- The place of a file is none of a list of places.
  abbrev IsNew : List Place → FilePath → Type 0
  IsNew seen file = (place : Place) × (canonicalize file ≡ io_ok place) × All (λ s. place ≢ s) seen

  seen_before-false :
      (place : Place) (seen : List Place)
      → seen_before place seen ≡ false
      → All (λ s. place ≢ s) seen
  unfolding seen_before
  seen_before-false place [] h = tt
  seen_before-false place (s ∷ seen) h =
      let parts : (place_eq place s ≡ false) × (seen_before place seen ≡ false) = ground arith in
      (differs place s parts.0, seen_before-false place seen parts.1)

  -- Each file of a list leads to another place than the files before it, and than the places in
  -- `seen`.
  unfoldable pub AreNew : List Place → List FilePath → Type 0
  AreNew seen [] = Unit {0}
  AreNew seen (file ∷ files) =
      (place : Place) × (canonicalize file ≡ io_ok place)
      × All (λ s. place ≢ s) seen
      × AreNew (place ∷ seen) files

  deduplicate-AreNew :
      (seen : List Place) (files deduped : List FilePath)
      → deduplicate p b system seen files ≡ ok deduped
      → AreNew seen deduped
  unfolding deduplicate AreNew
  deduplicate-AreNew seen [] deduped h = rw (← ok_inj [] deduped h) tt
  deduplicate-AreNew seen (file ∷ files) deduped h =
      let (place, found, h1) = >>=-eq-ok (or_file_read file (canonicalize file)) _ h in
      let e = or_file_read-ok file (canonicalize file) place found in
      elim (branch (seen_before place seen) _ _ deduped h1) [
        | inl (again, h2) ↦ deduplicate-AreNew seen files deduped h2
        | inr (new, h2) ↦
            let (rest, h3, h4) = >>=-eq-ok (deduplicate p b system (place ∷ seen) files) _ h2 in
            let tail = deduplicate-AreNew (place ∷ seen) files rest h3 in
            rw (← ok_inj (file ∷ rest) deduped h4)
              (place, e, seen_before-false place seen new, tail)
      ]

  -- The signature path of each file leads elsewhere than every message and the key file.
  abbrev pub AreApart : SignOptions → List FilePath → List FilePath → Type 0
  AreApart options protected_inputs files =
      All
        (λ file.
          (destination : Place) × (resolve_destination directories
              (signature_path file options.signature_file)
            ≡ ok destination)
          × All (LeadsElsewhere directories destination) protected_inputs)
        files

  check_outputs-AreApart :
      (options : SignOptions) (protected_inputs files : List FilePath)
      → check_outputs p b system options protected_inputs files ≡ ok tt
      → AreApart options protected_inputs files
  unfolding check_outputs
  check_outputs-AreApart options protected_inputs [] h = tt
  check_outputs-AreApart options protected_inputs (file ∷ files) h =
      let (u, passed, h1) =
        >>=-eq-ok
          (reject_output_alias directories (signature_path file options.signature_file)
            protected_inputs)
          _ h in
      (
        reject_output_alias-ok directories (signature_path file options.signature_file)
            protected_inputs passed,
        check_outputs-AreApart options protected_inputs files h1,
      )

  -- The files that are signed after the checks of a batch.
  abbrev pub AreChecked : SignOptions → List FilePath → List FilePath → Type 0
  AreChecked options files deduped =
      (checked_files p b system options files ≡ ok deduped)
      × AreNew [] deduped
      × AreCovered p b system deduped files
      × AreApart options (deduped ++ (options.secret_key_file ∷ [])) deduped

  checked_files-AreChecked :
      (options : SignOptions) (files deduped : List FilePath)
      → checked_files p b system options files ≡ ok deduped
      → AreChecked options files deduped
  unfolding checked_files
  checked_files-AreChecked options files deduped h =
      let (kept, e, h1) = >>=-eq-ok (deduplicate p b system [] files) _ h in
      let (a, h2) =
        fail_if-ok (several p b system kept && is_given p b system options.signature_file) _ _ h1 in
      let (u, passed, h3) =
        >>=-eq-ok (check_outputs p b system options (kept ++ (options.secret_key_file ∷ [])) kept) _
          h2 in
      let same = ok_inj kept deduped h3 in
      (
        h,
        deduplicate-AreNew [] files deduped (e ∙ ap ok same),
        deduplicate-AreCovered p b system files deduped (e ∙ ap ok same),
        check_outputs-AreApart options (deduped ++ (options.secret_key_file ∷ [])) deduped (
            ap (λ k. check_outputs p b system options (k ++ (options.secret_key_file ∷ [])) k)
              (sym same)
            ∙ passed),
      )

  -- Nothing was written, or the key was opened, and a list of files that passed the checks of the
  -- whole batch was signed.
  abbrev pub UnchangedOrChecked :
      SeckeyStruct → Option Bytes → SignOptions → List FilePath → Store → Store → Type 0
  UnchangedOrChecked seckey password options files s s' =
      (s' ≡ s)
      ⊎ ((deduped : List FilePath) × (sk : SecretKey) × (kn : KeyNum) × AreChecked options files
            deduped
          × (extract_key p seckey password ≡ ok (sk, kn))
          × Signs p b system sk kn options deduped s s')

  checked_or :
      (files : List FilePath) (checked : Result (List FilePath)) (seckey : SeckeyStruct)
      (options : SignOptions) (password : Option Bytes) (store : Store)
      → checked_files p b system options files ≡ checked
      → UnchangedOrChecked seckey password options files store
          (sign_checked p b system checked seckey options password store).files
  unfolding sign_checked
  checked_or files (err e) seckey options password store same = inl refl
  checked_or files (ok deduped) seckey options password store same =
      elim (sign_checked-UnchangedOrSigns p b system deduped seckey options password store) [
        | inl unchanged ↦ inl unchanged
        | inr (sk, kn, opened, signs) ↦
            inr
              (deduped, sk, kn, checked_files-AreChecked options files deduped same, opened, signs)
      ]

  -- A batch that changes any file has first made sure of the whole batch, and then changes the
  -- store only by signing, with the key that the password opens, each file of one list once, in
  -- order. The files of that list lead to different places, whatever their names; every file of
  -- the batch leads to the place of one of them; and the path of each signature leads elsewhere
  -- than every one of them and than the secret key file.
  pub sign_multiple_files_with_key-AreChecked :
      (files : List FilePath) (seckey : SeckeyStruct) (options : SignOptions)
      (password : Option Bytes) (store : Store)
      → UnchangedOrChecked seckey password options files store
          (sign_multiple_files_with_key p b system files seckey options password store).files
  unfolding sign_multiple_files_with_key
  sign_multiple_files_with_key-AreChecked files seckey options password store =
      checked_or files (checked_files p b system options files) seckey options password store refl
