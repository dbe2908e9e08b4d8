-- ===== src/Ops/Change/Keeps.antt =====
-- No key is lost when its password is changed, in rs/src/ops/change.rs.
use minisign_rs.Base.{
  ℕ, ◌≡◌, ◌≢◌, refl, sym, ap, ◌∙◌, ◌⊎◌, inl, inr, Bool, true, Option, some, Bytes, Text, IsArray,
  utf8,
}
use minisign_rs.Errors.{FilePath, Result, ok, err, ◌>>=◌, ◌>>◌, is_err, >>=-eq-ok}
use minisign_rs.Formats.{Base64, IsBase64}
use minisign_rs.Crypto.{
  KeyNum, IsKeyNum, SecretKey, secret_key_bytes, kdf_salt_bytes, Primitives, ArePrimitives,
}
use minisign_rs.Keys.Seckey.{SeckeyStruct, seckey_to_file_contents, seckey_from_file_contents}
use minisign_rs.Keys.Sealing.{extract_key}
use minisign_rs.Ops.Files.{load_secret_key}
use minisign_rs.Ops.Writing.{Store, write_secret_key_file, secret_key_file_permissions}
use minisign_rs.Ops.Writing.Stands.{write_secret_key_file-Done}
use minisign_rs.Ops.Modes.{seckey_comment, seal_key}
use minisign_rs.Ops.Modes.Opens.{seal_key-opens}
use minisign_rs.Ops.Sign.File.{System}
use minisign_rs.Ops.Change.{
  ChangeOptions, ChangeResult, reseal, change_result, write_resealed, change_with_log_n,
}

then_err : (r : Result (Unit {0})) (x : ChangeResult) → is_err r ≡ true → is_err (r >> ok x) ≡ true
then_err (ok u) x h = cc
then_err (err e) x h = refl

module _ (p : Primitives) (laws : ArePrimitives p) (b : Base64) (codec : IsBase64 b) (debug : Bool)
    (system : System) where
  open system use {disk, faults_at, tmp_of}

  -- A file for its owner alone stands under a path, and opens with a password as a key pair.
  abbrev pub Holds : FilePath → Option Bytes → SecretKey × KeyNum → Store → Type 0
  Holds path password key files =
      (text : Text) × (files path
        ≡ some (record { contents = utf8 text; mode = secret_key_file_permissions }))
      × ((seckey_from_file_contents b text >>= λ s. extract_key p s password) ≡ ok key)

  -- The text of a resealed key opens with the new password.
  abbrev Opens : Option Bytes → SecretKey × KeyNum → Text → Type 0
  Opens password key text =
      (seckey_from_file_contents b text >>= λ s. extract_key p s password) ≡ ok key

  -- The rest of a resealing once the key is opened.
  abbrev sealed_text :
      (options : ChangeOptions) (new_password : Option Bytes) (salt : Bytes) (log_n : ℕ)
      (sk : SecretKey) (kn : KeyNum)
      → Result (SeckeyStruct × Text)
  sealed_text options new_password salt log_n sk kn =
      seal_key p debug options.encryption options.force_weak_kdf log_n salt new_password kn sk
      >>= λ t.
          seckey_to_file_contents b t (seckey_comment options.encryption) >>= λ text. ok (t, text)

  reseal_opened :
      (options : ChangeOptions) (old_password new_password : Option Bytes) (salt : Bytes)
      (log_n : ℕ) (s : SeckeyStruct) (sk : SecretKey) (kn : KeyNum)
      → load_secret_key disk b options.secret_key_file ≡ ok s
      → extract_key p s old_password ≡ ok (sk, kn)
      → reseal p b debug system options old_password new_password salt log_n
        ≡ sealed_text options new_password salt log_n sk kn
  unfolding reseal
  reseal_opened options old_password new_password salt log_n s sk kn loaded opened =
      rw (loaded, opened) refl

  sealed_text-Opens :
      (options : ChangeOptions) (new_password : Option Bytes) (salt : Bytes) (log_n : ℕ)
      (t : SeckeyStruct) (sk : SecretKey) (kn : KeyNum) (text : Text)
      → IsKeyNum kn
      → IsArray secret_key_bytes sk.bytes
      → IsArray kdf_salt_bytes salt
      → sealed_text options new_password salt log_n sk kn ≡ ok (t, text)
      → Opens new_password (sk, kn) text
  sealed_text-Opens options new_password salt log_n t sk kn text hk hs hsalt h =
      let (t1, sealed, h1) =
        >>=-eq-ok
          (seal_key p debug options.encryption options.force_weak_kdf log_n salt new_password kn sk)
          _ h in
      let (text1, printed, h2) =
        >>=-eq-ok (seckey_to_file_contents b t1 (seckey_comment options.encryption)) _ h1 in
      let same : text1 ≡ text = cc in
      seal_key-opens b codec p laws kn sk salt hk hs hsalt debug options.encryption
        options.force_weak_kdf log_n new_password (seckey_comment options.encryption) text t1 sealed
        (printed ∙ ap ok same)

  write_resealed-Holds :
      (options : ChangeOptions) (new_password : Option Bytes) (key : SecretKey × KeyNum)
      (made : Result (SeckeyStruct × Text)) (store : Store)
      → options.secret_key_file ≢ tmp_of options.secret_key_file
      → ((t : SeckeyStruct) (text : Text) → made ≡ ok (t, text) → Opens new_password key text)
      → ((is_err (write_resealed p b debug system options made store).0 ≡ true)
          × ((write_resealed p b debug system options made store).1 options.secret_key_file
              ≡ store options.secret_key_file))
        ⊎ Holds options.secret_key_file new_password key
            (write_resealed p b debug system options made store).1
  unfolding write_resealed
  write_resealed-Holds options new_password key (err e) store distinct opens = inl (refl, refl)
  write_resealed-Holds options new_password key (ok (t, text)) store distinct opens =
      let path = options.secret_key_file in
      let x = write_secret_key_file (faults_at path) path (tmp_of path) (utf8 text) true store in
      elim (write_secret_key_file-Done (faults_at path) path (tmp_of path) store distinct
        (utf8 text)) [
          | inl (bad, old) ↦ inl (then_err x.0 (change_result p b debug system options t) bad, old)
          | inr new ↦ inr (text, new, opens t text refl)
        ]

  -- No key is lost when its password is changed or removed, whichever calls fail: the change
  -- failed and the file is as it was, or the file of its owner alone stands there and opens with
  -- the new password, or with any where there is none, as the same secret key and key number that
  -- the old password opened. The temporary file has another path and all sizes are right.
  pub change_with_log_n-Holds :
      (options : ChangeOptions) (old_password new_password : Option Bytes) (salt : Bytes)
      (log_n : ℕ) (store : Store) (s : SeckeyStruct) (sk : SecretKey) (kn : KeyNum)
      → IsKeyNum kn
      → IsArray secret_key_bytes sk.bytes
      → IsArray kdf_salt_bytes salt
      → options.secret_key_file ≢ tmp_of options.secret_key_file
      → load_secret_key disk b options.secret_key_file ≡ ok s
      → extract_key p s old_password ≡ ok (sk, kn)
      → ((is_err
              (change_with_log_n p b debug system options old_password new_password salt log_n
                store).0
            ≡ true)
          × ((change_with_log_n p b debug system options old_password new_password salt log_n
                  store).1
                options.secret_key_file
              ≡ store options.secret_key_file))
        ⊎ Holds options.secret_key_file new_password
            (sk, kn)
            (change_with_log_n p b debug system options old_password new_password salt log_n
              store).1
  unfolding change_with_log_n
  change_with_log_n-Holds options old_password new_password salt log_n store s sk kn hk hs hsalt
        distinct loaded opened =
      let same = reseal_opened options old_password new_password salt log_n s sk kn loaded opened in
      write_resealed-Holds options new_password (sk, kn)
        (reseal p b debug system options old_password new_password salt log_n) store distinct
        (λ t text made.
          sealed_text-Opens options new_password salt log_n t sk kn text hk hs hsalt
            (sym same ∙ made))
