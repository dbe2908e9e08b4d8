-- ===== src/Main/Rekeying/Remembers.antt =====
-- The saved passwords when `handle_change` of rs/src/main.rs fails.
use minisign_rs.Base.{
  ◌≡◌, refl, ap, ◌∙◌, Bool, true, false, Option, none, some, if◌then◌else◌, Bytes, Text,
}
use minisign_rs.Errors.{FilePath, Error, Result, ok, err}
use minisign_rs.Formats.{Base64}
use minisign_rs.Crypto.{Primitives}
use minisign_rs.Keys.Seckey.{SeckeyStruct, credential_id}
use minisign_rs.Ops.Files.{IoResult}
use minisign_rs.Ops.Writing.{Store}
use minisign_rs.Ops.Sign.File.{System}
use minisign_rs.Ops.Change.{ChangeResult, change}
use minisign_rs.Credentials.{Keyring, get_password}
use minisign_rs.Credentials.Kept.{IsKeyring, get_password-keeps}
use minisign_rs.Cli.{Cli, default_secret_key_path}
use minisign_rs.Main.{
  OpenPasswordFile, Prompted, saved_or_prompted, get_password_with_credential_store,
}
use minisign_rs.Main.Rekeying.{
  Typed, ChangeRun, as_bytes, change_checks, options_of, new_password, current_password,
  change_finish, change_new, change_current, change_checked, change_loaded, key_at, handle_change,
}

module _ (open_password_file : FilePath → IoResult OpenPasswordFile) (is_interactive : Bool)
    {Entry State : Type 0} (k : Keyring Entry State) {name : Entry → Text}
    {held : State → Text → Option Bytes} (laws : IsKeyring k name held) where
  -- The same secrets are held.
  abbrev pub AreKept : State → State → Type 0
  AreKept s s' = (id : Text) → held s' id ≡ held s id

  AreKept-saved_or_prompted :
      (prompted : Prompted) (x : Result (Option Text) × State)
      → (saved_or_prompted open_password_file is_interactive k prompted x).1 ≡ x.1
  unfolding saved_or_prompted
  AreKept-saved_or_prompted prompted (err e, s) = refl
  AreKept-saved_or_prompted prompted (ok none, s) = refl
  AreKept-saved_or_prompted prompted (ok (some saved), s) = refl

  -- The look-up of a password changes nothing that is held.
  AreKept-get :
      (id : Text) (prompted : Prompted) (file : Option FilePath) (s : State)
      → AreKept s
          (get_password_with_credential_store open_password_file is_interactive k id prompted file
            s).1
  unfolding get_password_with_credential_store
  AreKept-get id prompted (some path) s other = refl
  AreKept-get id prompted none s other =
      ap (λ t. held t other) (AreKept-saved_or_prompted prompted (get_password k id s))
      ∙ get_password-keeps k laws id other s

  either :
      (b : Bool) (x y : Result (Option Text) × State) (s : State)
      → AreKept s x.1
      → AreKept s y.1
      → AreKept s (if b then x else y).1
  either true x y s h g = h
  either false x y s h g = g

  AreKept-current :
      (cli : Cli) (seckey : SeckeyStruct) (typed : Typed) (s : State)
      → AreKept s (current_password open_password_file is_interactive k cli seckey typed s).1
  unfolding current_password
  AreKept-current cli seckey typed s =
      either seckey.encrypted _ _ s
        (AreKept-get (credential_id seckey) typed.current cli.password_file s) (λ id. refl)

  -- A run that failed has kept the secrets of that state.
  abbrev pub KeepsOnFailure : State → ChangeRun State → Type 0
  KeepsOnFailure s run = (e : Error) → run.code ≡ err e → AreKept s run.credentials

  KeepsOnFailure-finish :
      (cli : Cli) (seckey : SeckeyStruct) (new : Option Text) (s : State)
      (changed : Result ChangeResult × Store)
      → KeepsOnFailure s
          (change_finish open_password_file is_interactive k cli seckey new s changed)
  unfolding change_finish
  KeepsOnFailure-finish cli seckey new s (err e, files) x h id = refl
  KeepsOnFailure-finish cli seckey new s (ok result, files) x h id = absurd cc

  module _ (p : Primitives) (b : Base64) (debug : Bool) (system : System) where
    KeepsOnFailure-new :
        (cli : Cli) (path : FilePath) (seckey : SeckeyStruct) (current : Option Text) (salt : Bytes)
        (store : Store) (s : State) (new : Result (Option Text))
        → KeepsOnFailure s (
            change_new open_password_file is_interactive k p b debug system cli path seckey current
              salt store s new)
    unfolding change_new
    KeepsOnFailure-new cli path seckey current salt store s (err e) x h id = refl
    KeepsOnFailure-new cli path seckey current salt store s (ok new) x h id =
        KeepsOnFailure-finish cli seckey new s
          (change p b debug system (options_of debug cli path) (as_bytes current) (as_bytes new)
            salt store)
          x h id

    KeepsOnFailure-current :
        (cli : Cli) (path : FilePath) (seckey : SeckeyStruct) (typed : Typed) (salt : Bytes)
        (store : Store) (x : Result (Option Text) × State)
        → KeepsOnFailure x.1 (
            change_current open_password_file is_interactive k p b debug system cli path seckey
              typed salt store x)
    unfolding change_current
    KeepsOnFailure-current cli path seckey typed salt store (err e, s) x h id = refl
    KeepsOnFailure-current cli path seckey typed salt store (ok current, s) x h id =
        KeepsOnFailure-new cli path seckey current salt store s
          (new_password open_password_file is_interactive cli typed) x h id

    KeepsOnFailure-checked :
        (cli : Cli) (path : FilePath) (seckey : SeckeyStruct) (typed : Typed) (salt : Bytes)
        (store : Store) (s : State) (checked : Result (Unit {0}))
        → KeepsOnFailure s (
            change_checked open_password_file is_interactive k p b debug system cli path seckey
              typed salt store s checked)
    unfolding change_checked
    KeepsOnFailure-checked cli path seckey typed salt store s (err e) x h id = refl
    KeepsOnFailure-checked cli path seckey typed salt store s (ok nothing) x h id =
        KeepsOnFailure-current cli path seckey typed salt store
          (current_password open_password_file is_interactive k cli seckey typed s) x h id
        ∙ AreKept-current cli seckey typed s id

    not_forgotten :
        (b : Bool) (x y : ChangeRun State) (s : State)
        → b ≡ false
        → KeepsOnFailure s y
        → KeepsOnFailure s (if b then x else y)
    not_forgotten true x y s h g = absurd cc
    not_forgotten false x y s h g = g

    KeepsOnFailure-loaded :
        (cli : Cli) (typed : Typed) (salt : Bytes) (store : Store) (s : State)
        (loaded : Result (FilePath × SeckeyStruct))
        → cli.forget_password ≡ false
        → KeepsOnFailure s (
            change_loaded open_password_file is_interactive k p b debug system cli typed salt store
              s loaded)
    unfolding change_loaded
    KeepsOnFailure-loaded cli typed salt store s (err e) kept x h id = refl
    KeepsOnFailure-loaded cli typed salt store s (ok (path, seckey)) kept x h id =
        not_forgotten cli.forget_password _ _ s kept
          (KeepsOnFailure-checked cli path seckey typed salt store s (change_checks cli seckey)) x h
          id

    -- If `-K` fails, for whatever reason, and `--forget-password` was not given, then every
    -- password that was saved is still saved, and none is new: the credential store is only
    -- changed once the secret key file has been replaced.
    pub handle_change-keeps :
        (config_dir : Option Text) (home : Option FilePath) (cli : Cli) (typed : Typed)
        (salt : Bytes) (store : Store) (s : State) (e : Error) (id : Text)
        → cli.forget_password ≡ false
        → (handle_change open_password_file is_interactive k p b debug system config_dir home cli
            typed salt store s).code
          ≡ err e
        → held
            (handle_change open_password_file is_interactive k p b debug system config_dir home cli
              typed salt store s).credentials
            id
          ≡ held s id
    unfolding handle_change
    handle_change-keeps config_dir home cli typed salt store s e id kept h =
        KeepsOnFailure-loaded cli typed salt store s
          (key_at open_password_file is_interactive k p b debug system cli
            (default_secret_key_path config_dir home))
          kept e h id
