-- ===== src/Main/Rekeying.antt =====
-- `handle_change` of rs/src/main.rs: the passwords, the change of the file, and then the credential
-- store. The lines that are typed, the salt and the environment are arguments.
pub mod Remembers
use minisign_rs.Base.{
  ℕ, Bool, true, false, not, ◌&&◌, Option, none, some, List, [], if◌then◌else◌, Bytes, Text,
  list_eq, utf8,
}
use minisign_rs.Errors.{
  FilePath, Error, Result, ok, err, ◌>>=◌, ◌>>◌, fail_if, usage, key_takes_no_password_file,
  password_file_is_current_only,
}
use minisign_rs.Formats.{Base64}
use minisign_rs.Crypto.{Primitives}
use minisign_rs.Keys.Seckey.{SeckeyStruct, check_seckey_budget, credential_id}
use minisign_rs.Ops.Files.{IoResult, load_secret_key}
use minisign_rs.Ops.Writing.{Store}
use minisign_rs.Ops.Sign.File.{System}
use minisign_rs.Ops.Change.{ChangeOptions, change_options, ChangeResult, change}
use minisign_rs.Credentials.{Keyring, forget_password}
use minisign_rs.Cli.{Cli, is_some, default_secret_key_path}
use minisign_rs.Main.{
  OpenPasswordFile, Prompted, Told, or_default, prompt_password_with_confirmation,
  get_password_with_credential_store, save_password_to_credential_store,
  forget_password_with_feedback,
}

-- The lines that are typed: the current password, and the new one twice.
pub record Typed : Type 0 where
  pub current : Prompted
  pub first : Prompted
  pub second : Prompted

-- What a run leaves.
pub record ChangeRun (State : Type 0) : Type 0 where
  pub code : Result ℕ
  pub files : Store
  pub credentials : State
  pub told : List Told

abbrev pub failed_run : {State : Type 0} → Error → Store → State → ChangeRun State
failed_run e store s = record { code = err e; files = store; credentials = s; told = [] }

-- `password.as_ref().map(|p| p.as_bytes())`
abbrev pub as_bytes : Option Text → Option Bytes
as_bytes none = none
as_bytes (some password) = some (utf8 password)

abbrev pub some_result : Result Text → Result (Option Text)
some_result (err e) = err e
some_result (ok password) = ok (some password)

-- The checks behind the loading of the key.
unfoldable pub change_checks : Cli → SeckeyStruct → Result (Unit {0})
change_checks cli seckey = do
  check_seckey_budget seckey
  fail_if (is_some cli.password_file && not seckey.encrypted) (usage key_takes_no_password_file)
  fail_if
      (is_some cli.password_file && (not cli.no_password && not (is_some cli.new_password_file)))
      (usage password_file_is_current_only)

-- `debug` says whether this is a debug build.
unfoldable pub options_of : Bool → Cli → FilePath → ChangeOptions
unfolding change_options
options_of debug cli path = record (change_options path cli.no_password) {
  force_weak_kdf = debug && cli.force_weak_kdf;
}

module _ (open_password_file : FilePath → IoResult OpenPasswordFile) (is_interactive : Bool) where
  unfoldable pub new_password : Cli → Typed → Result (Option Text)
  unfolding prompt_password_with_confirmation
  new_password cli typed =
      if cli.no_password
      then ok none
      else some_result (
          prompt_password_with_confirmation open_password_file is_interactive typed.first
            typed.second cli.new_password_file)

  module _ {Entry State : Type 0} (k : Keyring Entry State) where
    abbrev pub with_some : Result Text × State → Result (Option Text) × State
    with_some (r, s) = (some_result r, s)

    unfoldable pub current_password :
        Cli → SeckeyStruct → Typed → State → Result (Option Text) × State
    unfolding get_password_with_credential_store
    current_password cli seckey typed s =
        if seckey.encrypted
        then with_some (
            get_password_with_credential_store open_password_file is_interactive k
              (credential_id seckey) typed.current cli.password_file s)
        else (ok none, s)

    -- The password of the old identifier is forgotten, whether or not that succeeds.
    unfoldable pub drop_old : SeckeyStruct → ChangeResult → State → State
    unfolding forget_password list_eq
    drop_old seckey result s =
        if seckey.encrypted && not (list_eq (credential_id seckey) result.credential_id)
        then (forget_password k (credential_id seckey) s).1
        else s

    -- Behind the change of the file.
    unfoldable pub change_finish :
        Cli → SeckeyStruct → Option Text → State → Result ChangeResult × Store → ChangeRun State
    unfolding drop_old save_password_to_credential_store
    change_finish cli seckey new s (err e, files) = failed_run e files s
    change_finish cli seckey new s (ok result, files) =
        let (told, s') =
          save_password_to_credential_store k result.credential_id new cli.save_password cli.quiet
            none (drop_old seckey result s) in
        record { code = ok 0; files = files; credentials = s'; told = told }

    unfoldable pub forget_run : Store → Result (Unit {0}) × State → ChangeRun State
    forget_run store (r, s) = record { code = r >> ok 0; files = store; credentials = s; told = [] }

    module _ (p : Primitives) (b : Base64) (debug : Bool) (system : System) where
      open system use {disk}

      unfoldable pub change_new :
          Cli
          → FilePath
          → SeckeyStruct
          → Option Text
          → Bytes
          → Store
          → State
          → Result (Option Text)
          → ChangeRun State
      unfolding change_finish options_of change
      change_new cli path seckey current salt store s (err e) = failed_run e store s
      change_new cli path seckey current salt store s (ok new) = change_finish cli seckey new s (
          change p b debug system (options_of debug cli path) (as_bytes current) (as_bytes new) salt
            store)

      unfoldable pub change_current :
          Cli
          → FilePath
          → SeckeyStruct
          → Typed
          → Bytes
          → Store
          → Result (Option Text) × State
          → ChangeRun State
      unfolding change_new new_password
      change_current cli path seckey typed salt store (err e, s) = failed_run e store s
      change_current cli path seckey typed salt store (ok current, s) =
          change_new cli path seckey current salt store s (new_password cli typed)

      unfoldable pub change_checked :
          Cli
          → FilePath
          → SeckeyStruct
          → Typed
          → Bytes
          → Store
          → State
          → Result (Unit {0})
          → ChangeRun State
      unfolding change_current current_password
      change_checked cli path seckey typed salt store s (err e) = failed_run e store s
      change_checked cli path seckey typed salt store s (ok nothing) =
          change_current cli path seckey typed salt store (current_password cli seckey typed s)

      unfoldable pub change_loaded :
          Cli → Typed → Bytes → Store → State → Result (FilePath × SeckeyStruct) → ChangeRun State
      unfolding change_checked change_checks forget_run forget_password_with_feedback
      change_loaded cli typed salt store s (err e) = failed_run e store s
      change_loaded cli typed salt store s (ok (path, seckey)) =
          if cli.forget_password
          then forget_run store (forget_password_with_feedback k (credential_id seckey) s)
          else change_checked cli path seckey typed salt store s (change_checks cli seckey)

      unfoldable pub key_at : Cli → Result FilePath → Result (FilePath × SeckeyStruct)
      key_at cli default_secret_key = do
        default_path ← default_secret_key
        let path = or_default cli.secret_key_file default_path
        seckey ← load_secret_key disk b path
        ok (path, seckey)

      -- `config_dir` and `home` are those of the environment.
      unfoldable pub handle_change :
          Option Text → Option FilePath → Cli → Typed → Bytes → Store → State → ChangeRun State
      unfolding change_loaded key_at default_secret_key_path
      handle_change config_dir home cli typed salt store s =
          change_loaded cli typed salt store s
            (key_at cli (default_secret_key_path config_dir home))
