-- ===== src/Ops/Change.antt =====
-- rs/src/ops/change.rs: giving a secret key file another password, or none. The salt, which the
-- source draws at random, is an argument.
pub mod Keeps
use minisign_rs.Base.{ℕ, Bool, true, false, Option, none, some, if◌then◌else◌, Bytes, Text, utf8}
use minisign_rs.Errors.{FilePath, Result, ok, err, ◌>>=◌, ◌>>◌}
use minisign_rs.Formats.{Base64}
use minisign_rs.Crypto.{Primitives}
use minisign_rs.Keys.Seckey.{SeckeyStruct, seckey_to_file_contents, credential_id}
use minisign_rs.Keys.Sealing.{extract_key}
use minisign_rs.Ops.Files.{load_secret_key}
use minisign_rs.Ops.Writing.{Store, write_secret_key_file}
use minisign_rs.Ops.Modes.{
  EncryptionMode, protected, unprotected, seckey_comment, seal_key, production_log_n,
}
use minisign_rs.Ops.Sign.File.{System}

pub record ChangeOptions : Type 0 where
  pub secret_key_file : FilePath
  pub encryption : EncryptionMode
  pub force_weak_kdf : Bool

-- `ChangeOptions::builder` with `remove_password`
unfoldable pub change_options : FilePath → Bool → ChangeOptions
change_options secret_key_file remove = record {
  secret_key_file = secret_key_file;
  encryption = if remove then unprotected else protected;
  force_weak_kdf = false;
}

pub record ChangeResult : Type 0 where
  pub secret_key_file : FilePath
  pub encrypted : Bool
  pub credential_id : Text

-- `options.encryption == EncryptionMode::Protected`
unfoldable pub is_protected : EncryptionMode → Bool
is_protected protected = true
is_protected unprotected = false

module _ (p : Primitives) (b : Base64) (debug : Bool) (system : System) where
  open system use {disk, faults_at, tmp_of}

  -- The new structure and its text; nothing is written before.
  unfoldable pub reseal :
      ChangeOptions → Option Bytes → Option Bytes → Bytes → ℕ → Result (SeckeyStruct × Text)
  reseal options old_password new_password kdf_salt log_n = do
    seckey ← load_secret_key disk b options.secret_key_file
    (secret_key, keynum) ← extract_key p seckey old_password
    new_seckey ←
        seal_key p debug options.encryption options.force_weak_kdf log_n kdf_salt new_password
          keynum secret_key
    seckey_contents ← seckey_to_file_contents b new_seckey (seckey_comment options.encryption)
    ok (new_seckey, seckey_contents)

  unfoldable pub change_result : ChangeOptions → SeckeyStruct → ChangeResult
  unfolding is_protected
  change_result options new_seckey = record {
    secret_key_file = options.secret_key_file;
    encrypted = is_protected options.encryption;
    credential_id = credential_id new_seckey;
  }

  unfoldable pub write_resealed :
      ChangeOptions → Result (SeckeyStruct × Text) → Store → Result ChangeResult × Store
  unfolding change_result
  write_resealed options (err e) store = (err e, store)
  write_resealed options (ok (new_seckey, seckey_contents)) store =
      let path = options.secret_key_file in
      let (written, s) =
        write_secret_key_file (faults_at path) path (tmp_of path) (utf8 seckey_contents) true
          store in
      (written >> ok (change_result options new_seckey), s)

  unfoldable pub change_with_log_n :
      ChangeOptions → Option Bytes → Option Bytes → Bytes → ℕ → Store → Result ChangeResult × Store
  unfolding reseal write_resealed
  change_with_log_n options old_password new_password kdf_salt log_n store =
      write_resealed options (reseal options old_password new_password kdf_salt log_n) store

  unfoldable pub change :
      ChangeOptions → Option Bytes → Option Bytes → Bytes → Store → Result ChangeResult × Store
  unfolding change_with_log_n
  change options old_password new_password kdf_salt store =
      change_with_log_n options old_password new_password kdf_salt production_log_n store
