-- ===== src/Ops/Recreate.antt =====
-- rs/src/ops/recreate.rs: writing the public key file of a secret key again.
pub mod Writes
use minisign_rs.Base.{Bool, Option, none, some, List, [], ◌∷◌, Bytes, Text}
use minisign_rs.Errors.{
  FilePath, Result, ok, err, ◌>>=◌, ◌>>◌, invalid_secret_key, public_key_does_not_match_scalar,
}
use minisign_rs.Formats.{Base64}
use minisign_rs.Crypto.{Primitives, SecretKey, PublicKey, to_key_id}
use minisign_rs.Validation.{validate_key_comment}
use minisign_rs.Keys.Pubkey.{PubkeyStruct, pubkey_to_file_contents}
use minisign_rs.Keys.Seckey.{SeckeyStruct}
use minisign_rs.Keys.Sealing.{extract_key}
use minisign_rs.Ops.Files.{load_secret_key}
use minisign_rs.Ops.Writing.{Store, write_public_key_file}
use minisign_rs.Ops.Paths.{reject_output_alias}
use minisign_rs.Ops.Modes.{pubkey_comment}
use minisign_rs.Ops.Sign.File.{System}

pub record RecreateOptions : Type 0 where
  pub secret_key_file : FilePath
  pub public_key_file : FilePath
  pub comment : Option Text
  pub force : Bool

pub record RecreateResult : Type 0 where
  pub public_key_file : FilePath
  pub keynum_hex : Text

-- The comment of the options is checked, if there is one.
abbrev pub check_comment : Option Text → Result (Unit {0})
check_comment none = ok tt
check_comment (some comment) = validate_key_comment comment

module _ (p : Primitives) (b : Base64) (system : System) where
  open system use {disk, directories, faults_at, symlink_at, tmp_of}

  unfoldable pub extract_public_key_from_secret : SecretKey → Result PublicKey
  extract_public_key_from_secret secret_key = elim (p.from_keypair_bytes secret_key.bytes) [
    | none ↦ err (invalid_secret_key public_key_does_not_match_scalar)
    | some signing_key ↦ ok (record { bytes = p.verifying_key signing_key })
  ]

  -- The public key and the text of its file; nothing is written before.
  unfoldable pub recreated :
      SeckeyStruct → RecreateOptions → Option Bytes → Result (PubkeyStruct × Text)
  unfolding extract_public_key_from_secret
  recreated seckey options password = do
    check_comment options.comment
    reject_output_alias directories options.public_key_file (options.secret_key_file ∷ [])
    (secret_key, keynum) ← extract_key p seckey password
    public_key ← extract_public_key_from_secret secret_key
    let pubkey : PubkeyStruct = record { keynum = keynum; public_key = public_key }
    pubkey_contents ← pubkey_to_file_contents b pubkey (pubkey_comment keynum options.comment)
    ok (pubkey, pubkey_contents)

  unfoldable pub write_recreated :
      RecreateOptions → Result (PubkeyStruct × Text) → Store → Result RecreateResult × Store
  write_recreated options (err e) store = (err e, store)
  write_recreated options (ok (pubkey, pubkey_contents)) store =
      let path = options.public_key_file in
      let (written, s) =
        write_public_key_file (faults_at path) (symlink_at path) path (tmp_of path) pubkey_contents
          options.force store in
      (written >> ok (record { public_key_file = path; keynum_hex = to_key_id pubkey.keynum }), s)

  unfoldable pub recreate_with_key :
      SeckeyStruct → RecreateOptions → Option Bytes → Store → Result RecreateResult × Store
  unfolding recreated write_recreated
  recreate_with_key seckey options password store =
      write_recreated options (recreated seckey options password) store

  unfoldable pub recreate_loaded :
      Result SeckeyStruct → RecreateOptions → Option Bytes → Store → Result RecreateResult × Store
  unfolding recreate_with_key
  recreate_loaded (err e) options password store = (err e, store)
  recreate_loaded (ok seckey) options password store =
      recreate_with_key seckey options password store

  unfoldable pub recreate : RecreateOptions → Option Bytes → Store → Result RecreateResult × Store
  unfolding recreate_loaded
  recreate options password store =
      recreate_loaded (load_secret_key disk b options.secret_key_file) options password store
