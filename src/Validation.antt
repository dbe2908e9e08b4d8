-- ===== src/Validation.antt =====
-- rs/src/validation.rs: what a comment may hold, and how long it may be.
pub mod Accepted
use minisign_rs.Base.{
  ℕ, ◌-◌, ◌≤◌, ◌<◌, Bool, true, false, ◌&&◌, ◌||◌, Option, none, some, [], ◌∷◌, ltb, leb, ◌==◌,
  if◌then◌else◌, Text, text_len, contains_char,
}
use minisign_rs.Errors.{
  FilePath, Error, Result, ok, err, ◌>>=◌, ◌>>◌, fail_if, invalid_comment, control_character,
  embedded_carriage_return, untrusted_comment_too_long, trusted_comment_too_long, comment_too_long,
  comment_empty,
}

abbrev pub comment_max_bytes : ℕ
comment_max_bytes = 1024

abbrev pub trusted_comment_max_bytes : ℕ
trusted_comment_max_bytes = 8192

abbrev pub comment_prefix_size : ℕ
comment_prefix_size = 20

abbrev pub trusted_comment_prefix_size : ℕ
trusted_comment_prefix_size = 18

-- `char::is_control`: the category Cc.
unfoldable pub is_control : ℕ → Bool
is_control c = ltb c 0x20 || (leb 0x7f c && leb c 0x9f)

unfoldable pub is_printable : Text → Result (Unit {0})
unfolding is_control
is_printable [] = ok tt
is_printable (c ∷ cs) =
    let rest = is_printable cs in
    if c == b'\t'
    then rest
    else if is_control c || c == 0x7f
    then err (invalid_comment (control_character c))
    else rest

unfoldable pub validate_no_embedded_cr : Text → Result (Unit {0})
unfolding contains_char
validate_no_embedded_cr s = fail_if (contains_char 13 s) (invalid_comment embedded_carriage_return)

unfoldable pub validate_comment : Text → Result (Unit {0})
validate_comment s = is_printable s

unfoldable pub validate_comment_with_length : Text → Option ℕ → Text → Result (Unit {0})
unfolding validate_comment
validate_comment_with_length s none comment_type = validate_comment s
validate_comment_with_length s (some max_len) comment_type = do
  validate_comment s
  fail_if (leb max_len (text_len s))
      (invalid_comment (comment_too_long comment_type (text_len s) (max_len - 1)))

-- On every system but Windows.
unfoldable pub validate_windows_path : FilePath → Result (Unit {0})
validate_windows_path path = ok tt

unfoldable pub validate_untrusted_comment : Text → Result (Unit {0})
unfolding validate_comment
validate_untrusted_comment comment = do
  validate_comment comment
  fail_if (leb (comment_max_bytes - comment_prefix_size) (text_len comment))
      (invalid_comment (untrusted_comment_too_long (comment_max_bytes - comment_prefix_size - 1)))

unfoldable pub validate_key_comment : Text → Result (Unit {0})
validate_key_comment [] = err (invalid_comment comment_empty)
validate_key_comment (c ∷ cs) = validate_untrusted_comment (c ∷ cs)

-- `validate_trusted_comment` of rs/src/signature.rs
unfoldable pub validate_trusted_comment : Text → Result (Unit {0})
unfolding validate_comment
validate_trusted_comment trusted = do
  validate_comment trusted
  fail_if (leb (trusted_comment_max_bytes - trusted_comment_prefix_size) (text_len trusted)) (
      invalid_comment
        (trusted_comment_too_long (trusted_comment_max_bytes - trusted_comment_prefix_size - 1)))
