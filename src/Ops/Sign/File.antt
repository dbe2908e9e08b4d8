-- ===== src/Ops/Sign/File.antt =====
-- rs/src/ops/sign.rs: signing one file and writing its signature. What the system answers is one
-- record; the disk that is read and the store that is written are two views of it.
pub mod Verifies
use minisign_rs.Base.{ℕ, Bool, true, false, Option, none, some, List, [], ◌∷◌, Bytes, Text}
use minisign_rs.Errors.{FilePath, Result, ok, err, ◌>>=◌, ◌>>◌}
use minisign_rs.Formats.{Base64}
use minisign_rs.Crypto.{Primitives, SecretKey, KeyNum, to_key_id}
use minisign_rs.Wordlist.{keynum_to_words}
use minisign_rs.Signature.{SignatureBox, box_to_file_contents}
use minisign_rs.Keys.Seckey.{SeckeyStruct}
use minisign_rs.Keys.Sealing.{extract_key}
use minisign_rs.Ops.Files.{Disk, IoResult, load_secret_key}
use minisign_rs.Ops.Writing.{Store, Faults, write_signature_file}
use minisign_rs.Ops.Paths.{Directories, reject_output_alias}
use minisign_rs.Ops.Sign.{signature_path, create_signature}

pub record SignOptions : Type 0 where
  pub secret_key_file : FilePath
  pub message_file : FilePath
  pub signature_file : Option FilePath
  pub prehashed : Bool
  pub trusted_comment : Option Text
  pub untrusted_comment : Option Text
  pub force : Bool
  pub quiet : Bool

-- `SignOptions::builder`
unfoldable pub sign_options : FilePath → FilePath → SignOptions
sign_options secret_key_file message_file = record {
  secret_key_file = secret_key_file;
  message_file = message_file;
  signature_file = none;
  prehashed = true;
  trusted_comment = none;
  untrusted_comment = none;
  force = false;
  quiet = false;
}

pub record SignResult : Type 0 where
  pub signature_file : FilePath
  pub trusted_comment : Text
  pub key_id : Text
  pub key_id_words : Text

-- The system: what it reads, where paths lead, the clock, and for each path that is written how
-- the calls fail, whether it is a symbolic link, and its temporary path.
pub record System : Type 0 where
  pub disk : Disk
  pub directories : Directories
  pub clock : Option ℕ
  pub faults_at : FilePath → Faults
  pub symlink_at : FilePath → IoResult Bool
  pub tmp_of : FilePath → FilePath

-- The part of `sign_file_with_key` behind the writing.
unfoldable pub sign_result : FilePath → KeyNum → SignatureBox → SignResult
sign_result sig_file_path keynum sig_box = record {
  signature_file = sig_file_path;
  trusted_comment = sig_box.trusted_comment;
  key_id = to_key_id keynum;
  key_id_words = keynum_to_words keynum;
}

module _ (p : Primitives) (b : Base64) (system : System) where
  open system use {disk, directories, clock, faults_at, symlink_at, tmp_of}

  unfoldable pub load_and_decrypt_key : FilePath → Option Bytes → Result (SecretKey × KeyNum)
  load_and_decrypt_key secret_key_file password = do
    seckey ← load_secret_key disk b secret_key_file
    extract_key p seckey password

  -- The box that will be written, behind the check of the output path.
  unfoldable pub make_box :
      FilePath → FilePath → SecretKey → KeyNum → SignOptions → Result SignatureBox
  make_box message_file sig_file_path secret_key keynum options = do
    reject_output_alias directories sig_file_path (message_file ∷ options.secret_key_file ∷ [])
    create_signature p disk clock secret_key keynum message_file options.prehashed
        options.trusted_comment options.untrusted_comment

  unfoldable pub write_box :
      FilePath → KeyNum → SignOptions → Result SignatureBox → Store → Result SignResult × Store
  unfolding sign_result
  write_box sig_file_path keynum options (err e) store = (err e, store)
  write_box sig_file_path keynum options (ok sig_box) store =
      let (written, s) =
        write_signature_file (faults_at sig_file_path) (symlink_at sig_file_path) sig_file_path
          (tmp_of sig_file_path) (box_to_file_contents b sig_box) options.force store in
      (written >> ok (sign_result sig_file_path keynum sig_box), s)

  unfoldable pub sign_file_with_key :
      FilePath → SecretKey → KeyNum → SignOptions → Store → Result SignResult × Store
  unfolding make_box write_box
  sign_file_with_key message_file secret_key keynum options store =
      let sig_file_path = signature_path message_file options.signature_file in
      write_box sig_file_path keynum options
        (make_box message_file sig_file_path secret_key keynum options) store

  -- The rest of a signing with what the opening of the key gave.
  unfoldable pub sign_opened :
      FilePath → Result (SecretKey × KeyNum) → SignOptions → Store → Result SignResult × Store
  unfolding sign_file_with_key
  sign_opened message_file (err e) options store = (err e, store)
  sign_opened message_file (ok (secret_key, keynum)) options store =
      sign_file_with_key message_file secret_key keynum options store

  unfoldable pub sign_single_file :
      FilePath → SignOptions → Option Bytes → Store → Result SignResult × Store
  unfolding sign_opened load_and_decrypt_key
  sign_single_file message_file options password store =
      sign_opened message_file (load_and_decrypt_key options.secret_key_file password) options store

  unfoldable pub sign_with_key :
      FilePath → SeckeyStruct → SignOptions → Option Bytes → Store → Result SignResult × Store
  unfolding sign_opened
  sign_with_key message_file seckey options password store =
      sign_opened message_file (extract_key p seckey password) options store

  -- The function `sign` of the module.
  unfoldable pub sign_message_file : SignOptions → Option Bytes → Store → Result SignResult × Store
  unfolding sign_single_file
  sign_message_file options password store =
      sign_single_file options.message_file options password store
