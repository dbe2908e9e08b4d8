-- ===== src/Ops/Generate/Make.antt =====
-- Making a key pair, of rs/src/ops/generate.rs. What is drawn at random, the paths of temporary
-- files, the answers of the system and whether this is a debug build are arguments.
pub mod Opens
use minisign_rs.Base.{
  ℕ, Bool, true, false, not, Option, none, some, List, [], ◌∷◌, ◌++◌, if◌then◌else◌, Bytes, Text,
}
use minisign_rs.Errors.{
  FilePath, IoError, Error, Result, ok, err, ◌>>=◌, ◌>>◌, fail_if, is_err, file_write,
  password_required,
}
use minisign_rs.Formats.{Base64, encode_base64}
use minisign_rs.Crypto.{KeyNum, SecretKey, PublicKey, Primitives, to_key_id}
use minisign_rs.Wordlist.{keynum_to_words}
use minisign_rs.Validation.{validate_key_comment}
use minisign_rs.Keys.Pubkey.{PubkeyStruct, pubkey_to_bytes, pubkey_to_file_contents}
use minisign_rs.Keys.Seckey.{SeckeyStruct, seckey_to_file_contents, credential_id}
use minisign_rs.Ops.Writing.{Store}
use minisign_rs.Ops.Paths.{Directories, reject_output_alias}
use minisign_rs.Ops.Modes.{
  OverwritePolicy, preserve, overwrite, EncryptionMode, protected, unprotected, seckey_comment,
  pubkey_comment, seal_key, production_log_n,
}
use minisign_rs.Ops.Generate.Pair.{
  PairPaths, PairFaults, Run, write_keypair_files_create_new, write_keypair_files_with_overwrite,
}

-- The field `overwrite` of the source is `policy` here.
pub record GenerateOptions : Type 0 where
  pub secret_key_file : FilePath
  pub public_key_file : FilePath
  pub comment : Option Text
  pub policy : OverwritePolicy
  pub encryption : EncryptionMode
  pub force_weak_kdf : Bool

-- `GenerateOptions::builder`, and its setters.
unfoldable pub generate_options : FilePath → FilePath → GenerateOptions
generate_options secret_key_file public_key_file = record {
  secret_key_file = secret_key_file;
  public_key_file = public_key_file;
  comment = none;
  policy = preserve;
  encryption = protected;
  force_weak_kdf = false;
}

unfoldable pub with_force : Bool → GenerateOptions → GenerateOptions
with_force force options = record options { policy = if force then overwrite else preserve }

unfoldable pub with_no_password : Bool → GenerateOptions → GenerateOptions
with_no_password no_password options = record options {
  encryption = if no_password then unprotected else protected;
}

pub record GenerateResult : Type 0 where
  pub secret_key_file : FilePath
  pub public_key_file : FilePath
  pub keynum_hex : Text
  pub keynum_words : Text
  pub public_key_base64 : Text
  pub credential_id : Text

-- A directory that was made, with its permissions.
pub record MadeDirectory : Type 0 where
  pub directory : FilePath
  pub directory_mode : ℕ

-- Which path has a parent that does not exist, and how making that directory fails.
pub record Parents : Type 0 where
  pub missing_parent : FilePath → Option FilePath
  pub make_fault : FilePath → Option IoError

-- 0o700
abbrev pub secret_key_dir_mode : ℕ
secret_key_dir_mode = 448

-- 0o755 under the usual mask.
abbrev pub default_dir_mode : ℕ
default_dir_mode = 493

-- `create_dir_all` and a recursive `DirBuilder`, by the directory they are asked for.
unfoldable pub make_directory :
    ℕ → FilePath → Option IoError → Result (Unit {0}) × List MadeDirectory
make_directory mode parent none = (ok tt, record { directory = parent; directory_mode = mode } ∷ [])
make_directory mode parent (some e) = (err (file_write parent e), [])

unfoldable pub ensure_directory :
    Parents → ℕ → Option FilePath → Result (Unit {0}) × List MadeDirectory
unfolding make_directory
ensure_directory parents mode none = (ok tt, [])
ensure_directory parents mode (some parent) = make_directory mode parent (parents.make_fault parent)

unfoldable pub ensure_parent_directory : Parents → FilePath → Result (Unit {0}) × List MadeDirectory
unfolding ensure_directory
ensure_parent_directory parents path =
    ensure_directory parents default_dir_mode (parents.missing_parent path)

unfoldable pub ensure_secret_key_directory :
    Parents → FilePath → Result (Unit {0}) × List MadeDirectory
unfolding ensure_directory
ensure_secret_key_directory parents path =
    ensure_directory parents secret_key_dir_mode (parents.missing_parent path)

-- What the source draws at random.
pub record Draw (p : Primitives) : Type 0 where
  pub signing_key : p.SigningKey
  pub keynum_bytes : Bytes
  pub kdf_salt : Bytes

-- The system as one run finds it. `lock` is how the attempt to get the force-overwrite lock ends,
-- and `meanwhile` what other processes do between the first checks and the writing.
pub record Surroundings : Type 0 where
  pub debug : Bool
  pub directories : Directories
  pub parents : Parents
  pub pair_paths : PairPaths
  pub pair_faults : PairFaults
  pub meanwhile : Store → Store
  pub lock : Store → Run

-- What a run leaves.
pub record Generated : Type 0 where
  pub result : Result GenerateResult
  pub files : Store
  pub made : List MadeDirectory

abbrev pub paths_of : Surroundings → GenerateOptions → PairPaths
paths_of around options = record around.pair_paths {
  secret_path = options.secret_key_file;
  public_path = options.public_key_file;
}

abbrev pub validate_optional : Option Text → Result (Unit {0})
validate_optional none = ok tt
validate_optional (some comment) = validate_key_comment comment

abbrev pub needs_password : EncryptionMode → Option Bytes → Bool
needs_password protected none = true
needs_password protected (some password) = false
needs_password unprotected password = false

module _ (p : Primitives) (to_keypair_bytes : p.SigningKey → Bytes) where
  abbrev pub drawn_keynum : Draw p → KeyNum
  drawn_keynum draw = record { bytes = draw.keynum_bytes }

  unfoldable pub generate_keypair : Draw p → SecretKey × PublicKey × KeyNum
  generate_keypair draw = (
    record { bytes = to_keypair_bytes draw.signing_key },
    record { bytes = p.verifying_key draw.signing_key },
    drawn_keynum draw,
  )

  -- `generate_with_log_n` up to the two structures: nothing is written before.
  unfoldable pub prepare :
      Surroundings
      → Draw p
      → GenerateOptions
      → Option Bytes
      → ℕ
      → Result (SeckeyStruct × PubkeyStruct)
  unfolding generate_keypair
  prepare around draw options password log_n = do
    fail_if (needs_password options.encryption password) password_required
    validate_optional options.comment
    reject_output_alias around.directories options.public_key_file (options.secret_key_file ∷ [])
    let (secret_key, public_key, keynum) = generate_keypair draw
    seckey ←
        seal_key p around.debug options.encryption options.force_weak_kdf log_n draw.kdf_salt
          password keynum secret_key
    ok (seckey, record { keynum = keynum; public_key = public_key })

  module _ (b : Base64) where
    -- The texts of both files.
    unfoldable pub file_texts : GenerateOptions → SeckeyStruct → PubkeyStruct → Result (Text × Text)
    file_texts options seckey pubkey = do
      seckey_contents ← seckey_to_file_contents b seckey (seckey_comment options.encryption)
      pubkey_contents ←
          pubkey_to_file_contents b pubkey (pubkey_comment pubkey.keynum options.comment)
      ok (seckey_contents, pubkey_contents)

    unfoldable pub write_pair :
        Surroundings → GenerateOptions → OverwritePolicy → Text → Text → Store → Run
    write_pair around options overwrite seckey_contents pubkey_contents store =
        write_keypair_files_with_overwrite (paths_of around options) around.pair_faults
          (around.lock store) seckey_contents pubkey_contents
    write_pair around options preserve seckey_contents pubkey_contents store =
        write_keypair_files_create_new (paths_of around options) around.pair_faults around.meanwhile
          seckey_contents pubkey_contents store

    unfoldable pub write_texts : Surroundings → GenerateOptions → Result (Text × Text) → Store → Run
    unfolding write_pair
    write_texts around options (err e) store = (err e, store)
    write_texts around options (ok (seckey_contents, pubkey_contents)) store =
        write_pair around options options.policy seckey_contents pubkey_contents store

    unfoldable pub generate_result : GenerateOptions → SeckeyStruct → PubkeyStruct → GenerateResult
    unfolding pubkey_to_bytes
    generate_result options seckey pubkey = record {
      secret_key_file = options.secret_key_file;
      public_key_file = options.public_key_file;
      keynum_hex = to_key_id pubkey.keynum;
      keynum_words = keynum_to_words pubkey.keynum;
      public_key_base64 = encode_base64 b (pubkey_to_bytes pubkey);
      credential_id = credential_id seckey;
    }

    -- `generate_with_log_n` from the structures on. The second directory is made only if the first
    -- call succeeded.
    unfoldable pub write_prepared :
        Surroundings → GenerateOptions → Result (SeckeyStruct × PubkeyStruct) → Store → Generated
    unfolding ensure_secret_key_directory ensure_parent_directory file_texts write_texts
    write_prepared around options (err e) store = record {
      result = err e;
      files = store;
      made = [];
    }
    write_prepared around options (ok (seckey, pubkey)) store =
        let (r1, made1) = ensure_secret_key_directory around.parents options.secret_key_file in
        let (r2, made2) = ensure_parent_directory around.parents options.public_key_file in
        let (written, files) =
          write_texts around options (r1 >> (r2 >> file_texts options seckey pubkey)) store in
        record {
          result = written >> ok (generate_result options seckey pubkey);
          files = files;
          made = if is_err r1 then made1 else made1 ++ made2;
        }

    unfoldable pub generate_with_log_n :
        Surroundings → Draw p → GenerateOptions → Option Bytes → ℕ → Store → Generated
    unfolding prepare write_prepared
    generate_with_log_n around draw options password log_n store =
        write_prepared around options (prepare around draw options password log_n) store

    unfoldable pub generate :
        Surroundings → Draw p → GenerateOptions → Option Bytes → Store → Generated
    unfolding generate_with_log_n
    generate around draw options password store =
        generate_with_log_n around draw options password production_log_n store
