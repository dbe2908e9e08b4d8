-- ===== src/Main/Prompts.antt =====
-- What the prompts of rs/src/main.rs give.
use minisign_rs.Base.{
  ◌+◌, ◌≤◌, ◌≡◌, refl, sym, ap, ◌∙◌, arith, Bool, true, false, not, Option, none, some, ◌++◌, ltb,
  length, Bytes, Text, list_eq, list_eq_iff, utf8,
}
use minisign_rs.Errors.{
  FilePath, IoError, Error, ok, err, >>=-eq-ok, fail_if-ok, io, password_file_not_opened,
  password_file_without_metadata, password_file_not_read, flush_failed,
}
use minisign_rs.Ops.Files.{IoResult, io_ok, io_err, read_to_end}
use minisign_rs.Ops.Files.Decode.{from_utf8}
use minisign_rs.Ops.Files.Bounded.{delivered, Reads-read_to_end}
use minisign_rs.Main.{
  OpenPasswordFile, PasswordFile, Prompted, or_io, read_error, trim_end, max_password_file_bytes,
  password_from_file, password_from_terminal, prompt_password, prompt_password_with_confirmation,
}
use minisign_rs.Main.Trimmed.{IsBlank, trim_end-IsBlank, trim_end-trim_end}

or_io-ok {ℓ} :
    {A : Type ℓ} (error : IoError → Error) (r : IoResult A) (a : A)
    → or_io error r ≡ ok a
    → r ≡ io_ok a
or_io-ok error (io_ok x) a h = cc
or_io-ok error (io_err e) a h = cc

negated_false : (b : Bool) → not b ≡ false → b ≡ true
negated_false true h = refl
negated_false false h = cc

decoded_text :
    (found : Option Text) (e : Error) (password : Text)
    → (elim found [ none ↦ err e | some text ↦ ok (trim_end text) ]) ≡ ok password
    → (text : Text) × (found ≡ some text) × (trim_end text ≡ password)
decoded_text none e password h = absurd cc
decoded_text (some text) e password h = (text, refl, cc)

module _ (open_password_file : FilePath → IoResult OpenPasswordFile) where
  -- A password that is read from a file is all that the file delivers, at most 1024 bytes, as
  -- text, but for the white space at its end, of which nothing is left; and the file is a regular
  -- one.
  pub password_from_file-delivered :
      (path : FilePath) (password : Text)
      → password_from_file open_password_file path ≡ ok password
      → (file : OpenPasswordFile) × (metadata : PasswordFile) × (buf : Bytes) × (blank : Text)
        × (open_password_file path ≡ io_ok file)
        × (file.metadata ≡ io_ok metadata)
        × (metadata.is_file ≡ true)
        × (delivered file.reader ≡ io_ok buf)
        × (length buf ≤ max_password_file_bytes)
        × (from_utf8 buf ≡ some (password ++ blank))
        × IsBlank blank
        × (trim_end password ≡ password)
  unfolding password_from_file
  password_from_file-delivered path password h =
      let (file, opened, h1) =
        >>=-eq-ok (or_io (λ e. io (password_file_not_opened e)) (open_password_file path)) _ h in
      let (metadata, known, h2) =
        >>=-eq-ok (or_io (λ e. io (password_file_without_metadata e)) file.metadata) _ h1 in
      let (regular, h3) = fail_if-ok (not metadata.is_file) _ _ h2 in
      let (small, h4) = fail_if-ok (ltb max_password_file_bytes metadata.size) _ _ h3 in
      let (buf, got, h5) =
        >>=-eq-ok
          (or_io (λ e. io (password_file_not_read e))
            (read_to_end (max_password_file_bytes + 1) file.reader))
          _ h4 in
      let (within, h6) = fail_if-ok (ltb max_password_file_bytes (length buf)) _ _ h5 in
      let (text, decoded, trimmed) = decoded_text (from_utf8 buf) _ password h6 in
      let (blank, split, IsBlank-blank) = trim_end-IsBlank text in
      let short : length buf ≤ max_password_file_bytes = ground arith in
      let (_, whole) =
        Reads-read_to_end (max_password_file_bytes + 1) file.reader buf (or_io-ok _ _ buf got) in
      (
        file,
        metadata,
        buf,
        blank,
        or_io-ok _ _ file opened,
        or_io-ok _ _ metadata known,
        negated_false metadata.is_file regular,
        whole (omega arith),
        short,
        decoded ∙ ap some (split ∙ ap (λ t. t ++ blank) trimmed),
        IsBlank-blank,
        ap trim_end (sym trimmed) ∙ trim_end-trim_end text ∙ trimmed,
      )

  module _ (is_interactive : Bool) where
    password_from_terminal-typed :
        (prompted : Prompted) (password : Text)
        → password_from_terminal open_password_file is_interactive prompted ≡ ok password
        → (is_interactive ≡ true)
          × (prompted.flushed ≡ io_ok tt)
          × (prompted.typed ≡ io_ok password)
    unfolding password_from_terminal
    password_from_terminal-typed prompted password h =
        let (terminal, h1) = fail_if-ok (not is_interactive) _ _ h in
        let (nothing, flushed, h2) =
          >>=-eq-ok (or_io (λ e. io (flush_failed e)) prompted.flushed) _ h1 in
        (
          negated_false is_interactive terminal,
          or_io-ok _ _ nothing flushed,
          or_io-ok read_error prompted.typed password h2,
        )

    -- A new password that is asked for was typed twice, at a terminal, with the same bytes.
    pub prompt_password_with_confirmation-typed :
        (first second : Prompted) (password : Text)
        → prompt_password_with_confirmation open_password_file is_interactive first second none
          ≡ ok password
        → (again : Text) × (is_interactive ≡ true)
          × (first.typed ≡ io_ok password)
          × (second.typed ≡ io_ok again)
          × (utf8 password ≡ utf8 again)
    unfolding prompt_password_with_confirmation prompt_password
    prompt_password_with_confirmation-typed first second password h =
        let (password1, p1, h1) =
          >>=-eq-ok (password_from_terminal open_password_file is_interactive first) _ h in
        let (password2, p2, h2) =
          >>=-eq-ok (password_from_terminal open_password_file is_interactive second) _ h1 in
        let (equal, h3) = fail_if-ok (not (list_eq (utf8 password1) (utf8 password2))) _ _ h2 in
        let (terminal, flushed1, typed1) = password_from_terminal-typed first password1 p1 in
        let (_, flushed2, typed2) = password_from_terminal-typed second password2 p2 in
        let same : password1 ≡ password = cc in
        (
          password2,
          terminal,
          typed1 ∙ ap io_ok same,
          typed2,
          ap utf8 (sym same)
              ∙ (list_eq_iff (utf8 password1) (utf8 password2)).0 (negated_false _ equal),
        )
