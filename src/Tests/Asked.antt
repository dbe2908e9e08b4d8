-- ===== src/Tests/Asked.antt =====
-- Concrete arguments and prompts.
use minisign_rs.Base.{
  ◌≤◌, ◌≡◌, ◌↔◌, refl, Bool, true, false, none, some, [], ◌∷◌, ◌++◌, length, Bytes, Text, codes,
  utf8,
}
use minisign_rs.Errors.{FilePath, ok, err, invalid_path}
use minisign_rs.Crypto.{chunk}
use minisign_rs.Ops.Files.{IoResult, io_ok}
use minisign_rs.Ops.Files.Decode.{from_utf8}
use minisign_rs.Ops.Files.Bounded.{delivered}
use minisign_rs.Cli.{
  Action, sign_action, generate_action, verify_action, recreate_action, change_action,
  inspect_action, parse_action, expand_chars, cli_default_signature_path,
}
use minisign_rs.Cli.Actions.{IsOnly, parse_action_iff}
use minisign_rs.Cli.Expand.{gathered, gathered-expand_chars}
use minisign_rs.Main.{
  OpenPasswordFile, PasswordFile, Prompted, password_from_file, prompt_password_with_confirmation,
  max_password_file_bytes, trim_end,
}
use minisign_rs.Main.Trimmed.{IsBlank}
use minisign_rs.Main.Prompts.{password_from_file-delivered}

abbrev signing : Action → Bool
signing generate_action = false
signing sign_action = true
signing verify_action = false
signing recreate_action = false
signing change_action = false
signing inspect_action = false

parsed : parse_action signing ≡ ok (some sign_action)
unfolding parse_action
parsed = refl

parse_action_iff_example :
    (parse_action signing ≡ ok (some sign_action)) ↔ IsOnly signing sign_action
parse_action_iff_example = parse_action_iff signing sign_action

gathered-expand_chars_example : gathered (expand_chars (codes "Iskey.sec")) ≡ codes "Iskey.sec"
gathered-expand_chars_example = gathered-expand_chars (codes "Iskey.sec")

abbrev content : Bytes
content = utf8 (codes "pw \n")

abbrev password : Text
password = codes "pw"

abbrev pub file : FilePath → IoResult OpenPasswordFile
file path =
    io_ok (record {
      metadata = io_ok (record { is_file = true; size = 4 });
      reader = chunk content ∷ [];
    })

read : password_from_file file (codes "p") ≡ ok password
unfolding password_from_file utf8
read = refl

password_from_file-delivered_example :
    (opened : OpenPasswordFile) × (metadata : PasswordFile) × (buf : Bytes) × (blank : Text) × (file
        (codes "p")
      ≡ io_ok opened)
    × (opened.metadata ≡ io_ok metadata)
    × (metadata.is_file ≡ true)
    × (delivered opened.reader ≡ io_ok buf)
    × (length buf ≤ max_password_file_bytes)
    × (from_utf8 buf ≡ some (password ++ blank))
    × IsBlank blank
    × (trim_end password ≡ password)
password_from_file-delivered_example = password_from_file-delivered file (codes "p") password read

abbrev pub prompted : Prompted
prompted = record { flushed = io_ok tt; typed = io_ok password }

confirmed : prompt_password_with_confirmation file true prompted prompted none ≡ ok password
unfolding prompt_password_with_confirmation
confirmed = refl

beside : cli_default_signature_path (codes "dir//./a.txt/.") ≡ ok (codes "dir/a.txt.minisig")
unfolding cli_default_signature_path
beside = refl

at_root : cli_default_signature_path (codes "/a") ≡ ok (codes "/a.minisig")
unfolding cli_default_signature_path
at_root = refl

nameless : cli_default_signature_path (codes "dir/..") ≡ err (invalid_path (codes "dir/.."))
unfolding cli_default_signature_path
nameless = refl
