-- ===== src/Main.antt =====
-- rs/src/main.rs: the exit code, and what the handlers share: the passwords that are read from a
-- file, asked for at the terminal, or kept in the credential store. What is printed beside a
-- result is modelled where a password is saved.
pub mod Trimmed
pub mod Prompts
pub mod Reported
pub mod Verifying
pub mod Rekeying
use minisign_rs.Base.{
  ℕ, ◌+◌, Bool, true, false, not, ◌&&◌, ◌||◌, Option, none, some, List, [], ◌∷◌, ltb, leb, ◌==◌,
  if◌then◌else◌, length, Text, list_eq, utf8,
}
use minisign_rs.Errors.{
  FilePath, IoError, Error, Result, ok, err, ◌>>=◌, ◌>>◌, fail_if, map_err, io, usage, interrupted,
  missing_argument, password_mismatch, credential_store_error, password_not_removed,
  password_file_not_opened, password_file_without_metadata, password_file_not_regular,
  password_file_too_large, password_file_exceeds, password_file_not_read, password_file_not_utf8,
  password_not_read, not_interactive, flush_failed,
}
use minisign_rs.Crypto.{Reader}
use minisign_rs.Ops.Files.{
  IoResult, io_ok, io_err, is_interrupted, read_to_end, sanitised_path_display,
}
use minisign_rs.Ops.Files.Decode.{from_utf8}
use minisign_rs.Credentials.{Keyring, save_password, get_password, forget_password}

unfoldable pub exit_code : Result ℕ → ℕ
exit_code (ok code) = code
exit_code (err interrupted) = 130
exit_code (err (usage m)) = 2
exit_code (err (missing_argument m)) = 2
exit_code (err _) = 1

abbrev pub max_password_file_bytes : ℕ
max_password_file_bytes = 1024

-- `char::is_whitespace`
unfoldable pub is_whitespace : ℕ → Bool
is_whitespace c =
    (leb 9 c && leb c 13)
    || (c == 0x20
        || (c == 0x85
            || (c == 0xa0
                || (c == 0x1680
                    || ((leb 0x2000 c && leb c 0x200a)
                        || (c == 0x2028
                            || (c == 0x2029 || (c == 0x202f || (c == 0x205f || c == 0x3000)))))))))

abbrev pub is_empty : Text → Bool
is_empty [] = true
is_empty (c ∷ cs) = false

-- `str::trim_end`
unfoldable pub trim_end : Text → Text
unfolding is_whitespace
trim_end [] = []
trim_end (c ∷ cs) =
    let rest = trim_end cs in if is_whitespace c && is_empty rest then [] else c ∷ rest

-- An open password file: whether it is a regular file and its size, and what its reads deliver.
pub record PasswordFile : Type 0 where
  pub is_file : Bool
  pub size : ℕ

pub record OpenPasswordFile : Type 0 where
  pub metadata : IoResult PasswordFile
  pub reader : Reader

-- What a prompt meets: the flush of the output, and the line that is typed.
pub record Prompted : Type 0 where
  pub flushed : IoResult (Unit {0})
  pub typed : IoResult Text

-- `unwrap_or` of a path.
abbrev pub or_default : Option FilePath → FilePath → FilePath
or_default (some path) default_path = path
or_default none default_path = default_path

-- `map_err(|e| Error::Io(...))`
abbrev pub or_io {ℓ} : {A : Type ℓ} → (IoError → Error) → IoResult A → Result A
or_io error (io_ok a) = ok a
or_io error (io_err e) = err (error e)

abbrev pub read_error : IoError → Error
read_error e = if is_interrupted e then interrupted else io (password_not_read e)

module _ (open_password_file : FilePath → IoResult OpenPasswordFile) where
  -- The first branch of `prompt_password`.
  unfoldable pub password_from_file : FilePath → Result Text
  unfolding read_to_end from_utf8 trim_end
  password_from_file path = do
    file ← or_io (λ e. io (password_file_not_opened e)) (open_password_file path)
    metadata ← or_io (λ e. io (password_file_without_metadata e)) file.metadata
    fail_if (not metadata.is_file) (io (password_file_not_regular (sanitised_path_display path)))
    fail_if (ltb max_password_file_bytes metadata.size)
        (io (password_file_too_large metadata.size max_password_file_bytes))
    buf ←
        or_io (λ e. io (password_file_not_read e))
          (read_to_end (max_password_file_bytes + 1) file.reader)
    fail_if (ltb max_password_file_bytes (length buf))
        (io (password_file_exceeds max_password_file_bytes))
    elim (from_utf8 buf) [ none ↦ err (io password_file_not_utf8) | some text ↦ ok (trim_end text) ]

  -- `is_interactive` says whether the standard input is a terminal.
  module _ (is_interactive : Bool) where
    unfoldable pub password_from_terminal : Prompted → Result Text
    password_from_terminal prompted = do
      fail_if (not is_interactive) (usage not_interactive)
      nothing ← or_io (λ e. io (flush_failed e)) prompted.flushed
      or_io read_error prompted.typed

    unfoldable pub prompt_password : Prompted → Option FilePath → Result Text
    unfolding password_from_file password_from_terminal
    prompt_password prompted (some path) = password_from_file path
    prompt_password prompted none = password_from_terminal prompted

    unfoldable pub prompt_password_with_confirmation :
        Prompted → Prompted → Option FilePath → Result Text
    unfolding prompt_password list_eq utf8
    prompt_password_with_confirmation first second (some path) = prompt_password first (some path)
    prompt_password_with_confirmation first second none = do
      password1 ← prompt_password first none
      password2 ← prompt_password second none
      fail_if (not (list_eq (utf8 password1) (utf8 password2))) password_mismatch
      ok password1

    module _ {Entry State : Type 0} (k : Keyring Entry State) where
      -- Behind the look-up: the saved password, or a prompt.
      unfoldable pub saved_or_prompted :
          Prompted → Result (Option Text) × State → Result Text × State
      unfolding prompt_password
      saved_or_prompted prompted (err e, s) = (err e, s)
      saved_or_prompted prompted (ok (some saved), s) = (ok saved, s)
      saved_or_prompted prompted (ok none, s) = (prompt_password prompted none, s)

      unfoldable pub get_password_with_credential_store :
          Text → Prompted → Option FilePath → State → Result Text × State
      unfolding saved_or_prompted get_password prompt_password
      get_password_with_credential_store id prompted (some path) s =
          (prompt_password prompted (some path), s)
      get_password_with_credential_store id prompted none s =
          saved_or_prompted prompted (get_password k id s)

-- What the saving of a password prints; `extra` is the message of the caller.
pub data Told : Type 0 where
  password_saved retrieved_differs not_retrieved ignored_without_password : Told
  verification_failed_with save_failed_with : Error → Told
  extra : Text → Told

abbrev pub with_extra : Told → Option Text → List Told
with_extra told none = told ∷ []
with_extra told (some m) = told ∷ extra m ∷ []

module _ {Entry State : Type 0} (k : Keyring Entry State) where
  -- The comparison of what was read back.
  unfoldable pub told_of : Text → Bool → Option Text → Result (Option Text) → List Told
  unfolding list_eq utf8
  told_of password quiet context (ok (some retrieved)) =
      if list_eq (utf8 retrieved) (utf8 password)
      then if quiet then [] else password_saved ∷ []
      else with_extra retrieved_differs context
  told_of password quiet context (ok none) = with_extra not_retrieved context
  told_of password quiet context (err e) = with_extra (verification_failed_with e) context

  unfoldable pub check_saved :
      Text → Text → Bool → Option Text → Result (Unit {0}) × State → List Told × State
  unfolding told_of get_password
  check_saved id password quiet context (err e, s) = (with_extra (save_failed_with e) context, s)
  check_saved id password quiet context (ok nothing, s) =
      let (got, s') = get_password k id s in (told_of password quiet context got, s')

  unfoldable pub save_password_to_credential_store :
      Text → Option Text → Bool → Bool → Option Text → State → List Told × State
  unfolding check_saved save_password
  save_password_to_credential_store id password false quiet context s = ([], s)
  save_password_to_credential_store id none true quiet context s =
      (ignored_without_password ∷ [], s)
  save_password_to_credential_store id (some password) true quiet context s =
      check_saved id password quiet context (save_password k id password s)

  unfoldable pub forget_password_with_feedback : Text → State → Result (Unit {0}) × State
  unfolding forget_password
  forget_password_with_feedback id s =
      let (result, s') = forget_password k id s in
      (map_err (λ e. credential_store_error (password_not_removed e)) result, s')
