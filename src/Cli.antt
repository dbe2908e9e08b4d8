-- ===== src/Cli.antt =====
-- rs/src/cli.rs: the arguments of the command line. The crate `pico_args` reads the flags; what it
-- finds is a parameter.
pub mod Expand
pub mod Actions
use minisign_rs.Base.{
  ℕ, Bool, true, false, not, ◌&&◌, ◌||◌, Option, none, some, List, [], ◌∷◌, ◌++◌, ◌==◌, ltb,
  if◌then◌else◌, Bytes, Text, codes, text_len, contains_char,
}
use minisign_rs.Ops.Sign.{file_name}
use minisign_rs.Errors.{
  FilePath, Result, ok, err, ◌>>=◌, ◌>>◌, fail_if, usage, other, invalid_path, only_one_action,
  quiet_and_pretty_quiet, new_password_file_without_change, new_password_file_and_no_password,
  save_password_without_store, config_dir_empty,
}

pub data Action : Type 0 where
  generate_action sign_action verify_action recreate_action change_action inspect_action : Action

-- An `OsString`: Unicode text, or bytes that are not.
pub data Arg : Type 0 where
  unicode : Text → Arg
  raw : Bytes → Arg

abbrev pub value_flags : Text
value_flags = codes "mpPstcx"

-- The rest of a bundle as the value of its last flag.
unfoldable pub embedded : Text → List Arg
embedded [] = []
embedded (c ∷ cs) = unicode (c ∷ cs) ∷ []

-- The loop over the characters behind the dash.
unfoldable pub expand_chars : Text → List Arg
unfolding contains_char embedded
expand_chars [] = []
expand_chars (c ∷ cs) =
    let rest = expand_chars cs in
    unicode (b'-' ∷ c ∷ []) ∷ (if contains_char c value_flags then embedded cs else rest)

unfoldable pub starts_with_dash : Text → Bool
starts_with_dash [] = false
starts_with_dash (c ∷ cs) = c == b'-'

abbrev pub behind : Text → Text
behind [] = []
behind (c ∷ cs) = cs

unfoldable pub is_combined : Text → Bool
unfolding starts_with_dash
is_combined s = starts_with_dash s && not (starts_with_dash (behind s)) && ltb 2 (text_len s)

unfoldable pub expand_arg : Arg → List Arg
unfolding is_combined expand_chars
expand_arg (raw bytes) = raw bytes ∷ []
expand_arg (unicode s) = if is_combined s then expand_chars (behind s) else unicode s ∷ []

unfoldable pub expand_combined_flags : List Arg → List Arg
unfolding expand_arg
expand_combined_flags [] = []
expand_combined_flags (arg ∷ args) = expand_arg arg ++ expand_combined_flags args

abbrev pub all_actions : List Action
all_actions =
    generate_action ∷ sign_action ∷ verify_action ∷ recreate_action ∷ change_action ∷ inspect_action
    ∷ []

unfoldable pub found_actions : (Action → Bool) → List Action → List Action
found_actions present [] = []
found_actions present (a ∷ actions) =
    let rest = found_actions present actions in if present a then a ∷ rest else rest

-- The first action that was found, unless there is another.
unfoldable pub single_action : List Action → Result (Option Action)
single_action [] = ok none
single_action (a ∷ []) = ok (some a)
single_action (a ∷ next ∷ actions) = err (usage only_one_action)

-- `present` says whether one of the two flags of an action was given.
unfoldable pub parse_action : (Action → Bool) → Result (Option Action)
unfolding found_actions single_action
parse_action present = single_action (found_actions present all_actions)

pub record Cli : Type 0 where
  pub action : Option Action
  pub force : Bool
  pub no_decrypt : Bool
  pub prehashed : Bool
  pub legacy : Bool
  pub output : Bool
  pub quiet : Bool
  pub pretty_quiet : Bool
  pub no_password : Bool
  pub allow_kdf_fallback : Bool
  pub save_password : Bool
  pub forget_password : Bool
  pub message_file : Option FilePath
  pub extra_files : List FilePath
  pub public_key_file : Option FilePath
  pub public_key_base64 : Option Text
  pub secret_key_file : Option FilePath
  pub trusted_comment : Option Text
  pub untrusted_comment : Option Text
  pub signature_file : Option FilePath
  pub password_file : Option FilePath
  pub new_password_file : Option FilePath
  pub force_weak_kdf : Bool

abbrev pub is_some {ℓ} : {A : Type ℓ} → Option A → Bool
is_some none = false
is_some (some a) = true

abbrev pub is_change : Option Action → Bool
is_change none = false
is_change (some generate_action) = false
is_change (some sign_action) = false
is_change (some verify_action) = false
is_change (some recreate_action) = false
is_change (some change_action) = true
is_change (some inspect_action) = false

-- The checks of `parse_args` behind the reading of the flags. `store_built` says whether the
-- feature `credential_store` was built in.
unfoldable pub check_flags : Bool → Cli → Result (Unit {0})
check_flags store_built cli = do
  fail_if (cli.quiet && cli.pretty_quiet) (usage quiet_and_pretty_quiet)
  fail_if (is_some cli.new_password_file && not (is_change cli.action))
      (usage new_password_file_without_change)
  fail_if (is_some cli.new_password_file && cli.no_password)
      (usage new_password_file_and_no_password)
  fail_if (not store_built && cli.save_password) (usage save_password_without_store)

unfoldable pub all_message_files : Cli → List FilePath
all_message_files cli = elim cli.message_file [
  | none ↦ cli.extra_files
  | some first ↦ first ∷ cli.extra_files
]

-- `PathBuf::join` with a relative name.
unfoldable pub ends_with_slash : Text → Bool
ends_with_slash [] = false
ends_with_slash (c ∷ []) = c == b'/'
ends_with_slash (c ∷ d ∷ cs) = ends_with_slash (d ∷ cs)

unfoldable pub join_name : FilePath → Text → FilePath
unfolding ends_with_slash
join_name [] name = name
join_name (c ∷ cs) name =
    if ends_with_slash (c ∷ cs) then (c ∷ cs) ++ name else (c ∷ cs) ++ (b'/' ∷ name)

abbrev pub path_in_home : Option FilePath → FilePath
path_in_home (some home) = join_name (join_name home (codes ".minisign")) (codes "minisign.key")
path_in_home none = codes ".minisign.key"

-- By the variable `MINISIGN_CONFIG_DIR` and the home directory.
unfoldable pub default_secret_key_path : Option Text → Option FilePath → Result FilePath
unfolding join_name
default_secret_key_path (some []) home = err (other config_dir_empty)
default_secret_key_path (some (c ∷ cs)) home = ok (join_name (c ∷ cs) (codes "minisign.key"))
default_secret_key_path none home = ok (path_in_home home)

abbrev pub default_public_key_path : FilePath
default_public_key_path = codes "./minisign.pub"

-- A path in reverse, without the separators and the `.` at its end; the root stays.
unfoldable pub trim_back : Text → Text
trim_back [] = []
trim_back (c ∷ []) = c ∷ []
trim_back (c ∷ d ∷ cs) =
    let rest = trim_back (d ∷ cs) in
    if c == b'/' || (c == b'.' && d == b'/') then rest else c ∷ d ∷ cs

-- A path in reverse, without its last name.
unfoldable pub drop_name : Text → Text
drop_name [] = []
drop_name (c ∷ cs) = let rest = drop_name cs in if c == b'/' then c ∷ cs else rest

unfoldable pub reverse_onto : Text → Text → Text
reverse_onto done [] = done
reverse_onto done (c ∷ cs) = reverse_onto (c ∷ done) cs

-- `Path::parent` of a path with a file name.
unfoldable pub parent : FilePath → FilePath
unfolding trim_back drop_name reverse_onto
parent path = reverse_onto [] (trim_back (drop_name (trim_back (reverse_onto [] path))))

abbrev pub no_name : Text → Bool
no_name [] = true
no_name (c ∷ cs) = false

-- `Cli::default_signature_path`
unfoldable pub cli_default_signature_path : FilePath → Result FilePath
unfolding file_name parent join_name
cli_default_signature_path message_file =
    let name = file_name message_file in
    if no_name name
    then err (invalid_path message_file)
    else ok (join_name (parent message_file) (name ++ codes ".minisig"))
