-- ===== src/Ops/Inspect.antt =====
-- rs/src/ops/inspect.rs: what a key file or a signature file is, without opening it. The look-up
-- in the credential store is a parameter, a call that is made in a state and leaves a state.
pub mod Levels
pub mod Refused
pub mod Mislabelled
use minisign_rs.Base.{
  ℕ, ◌/◌, Bool, true, false, not, ◌&&◌, ◌||◌, Option, none, some, List, [], ◌∷◌, ltb, leb,
  if◌then◌else◌, Bytes, Text, text_len, codes, lines, strip_prefix,
}
use minisign_rs.Errors.{
  FilePath, Error, Result, ok, err, ◌>>=◌, is_err, map_err, io, invalid_public_key,
  invalid_key_format, missing_comment_or_data_line, failed_to_read_key_file,
  failed_to_read_signature_file, not_a_minisign_key,
}
use minisign_rs.Formats.{Base64, decode_base64_into}
use minisign_rs.Crypto.{Primitives, SecretKey, KeyNum, to_key_id}
use minisign_rs.Crypto.Kdf.{
  check_kdf_budget, decode_kdf_params, production_opslimit, production_memlimit,
}
use minisign_rs.Signature.{SignatureAlgorithm, algorithm, box_from_file_contents, untrusted_prefix}
use minisign_rs.Keys.Pubkey.{PubkeyStruct, pubkey_from_bytes, pubkey_from_base64, data_line}
use minisign_rs.Keys.Seckey.{SeckeyStruct, seckey_from_file_contents, credential_id}
use minisign_rs.Keys.Sealing.{decrypt}
use minisign_rs.Wordlist.{keynum_to_words}
use minisign_rs.Ops.Files.{
  Disk, read_file_bounded, read_secret_file_bounded, utf8_text, max_key_file_bytes,
  max_signature_file_bytes,
}

pub data SecurityLevel : Type 0 where
  high medium low unprotected unsupported : SecurityLevel

unfoldable pub from_kdf_params : ℕ → Bool → SecurityLevel
from_kdf_params memlimit is_fallback =
    if is_err (check_kdf_budget memlimit)
    then unsupported
    else if not is_fallback
    then high
    else if leb 256000000 memlimit
    then medium
    else low

-- `CredentialStatus` of rs/src/credential_store.rs; the text of an error is the error.
pub data CredentialStatus : Type 0 where
  saved not_saved : CredentialStatus
  unavailable : Error → CredentialStatus

pub data KeyType : Type 0 where
  secret_encrypted secret_unencrypted public_key_type : KeyType

pub record KdfInfo : Type 0 where
  pub opslimit : ℕ
  pub memlimit : ℕ
  pub log_n : ℕ
  pub r : ℕ
  pub p : ℕ
  pub is_fallback : Bool
  pub weakness_multiplier : Option ℕ

pub record InspectResult : Type 0 where
  pub key_id : Text
  pub key_id_words : Text
  pub key_type : KeyType
  pub security_level : Option SecurityLevel
  pub kdf_info : Option KdfInfo
  pub password_saved : CredentialStatus
  pub shown_credential_id : Option Text

pub data KeyFileType : Type 0 where
  secret_file public_file : KeyFileType

-- `s.contains(needle)` for a text.
unfoldable pub contains_text : Text → Text → Bool
contains_text needle [] = elim (strip_prefix needle []) [ none ↦ false | some s ↦ true ]
contains_text needle (c ∷ cs) = elim (strip_prefix needle (c ∷ cs)) [
  | none ↦ contains_text needle cs
  | some s ↦ true
]

unfoldable pub sniff_comment : Text → Option KeyFileType
unfolding contains_text
sniff_comment comment =
    if contains_text (codes "secret key") comment
    then some secret_file
    else if contains_text (codes "public key") comment
    then some public_file
    else none

unfoldable pub sniff_first_line : List Text → Option KeyFileType
unfolding sniff_comment
sniff_first_line [] = none
sniff_first_line (l ∷ ls) = elim (strip_prefix untrusted_prefix l) [
  | none ↦ none
  | some comment ↦ sniff_comment comment
]

unfoldable pub sniff_key_file_type : Text → Option KeyFileType
unfolding sniff_first_line
sniff_key_file_type contents = sniff_first_line (lines contents)

unfoldable pub inspect_public_key : PubkeyStruct → InspectResult
inspect_public_key k = record {
  key_id = to_key_id k.keynum;
  key_id_words = keynum_to_words k.keynum;
  key_type = public_key_type;
  security_level = none;
  kdf_info = none;
  password_saved = not_saved;
  shown_credential_id = none;
}

-- The result for a secret key, by what was found out about its protection.
unfoldable pub secret_result :
    SeckeyStruct → KeyType → SecurityLevel → Option KdfInfo → CredentialStatus → InspectResult
secret_result s key_type level kdf_info password_saved = record {
  key_id = to_key_id s.keynum;
  key_id_words = keynum_to_words s.keynum;
  key_type = key_type;
  security_level = some level;
  kdf_info = kdf_info;
  password_saved = password_saved;
  shown_credential_id = some (credential_id s);
}

abbrev pub is_unsupported : SecurityLevel → Bool
is_unsupported unsupported = true
is_unsupported level = false

module _ {State : Type 0} (scrypt_params : ℕ → ℕ → ℕ → ℕ → Bool)
    (credential_status : Text → State → CredentialStatus × State) where
  -- The credential store is only asked where this is wanted.
  unfoldable pub look_up : Bool → SeckeyStruct → State → CredentialStatus × State
  look_up wanted s store =
      if wanted then credential_status (credential_id s) store else (not_saved, store)

  -- An encrypted key, behind the reading of its limits.
  unfoldable pub inspect_encrypted : SeckeyStruct → Bool → ℕ → ℕ → ℕ → State → InspectResult × State
  unfolding from_kdf_params secret_result look_up
  inspect_encrypted s check_credential_store log_n r p store =
      let opslimit = s.kdf_opslimit in
      let memlimit = s.kdf_memlimit in
      let is_fallback = ltb opslimit production_opslimit || ltb memlimit production_memlimit in
      let weakness_multiplier =
        if is_fallback then some (production_memlimit / memlimit) else none in
      let security_level = from_kdf_params memlimit is_fallback in
      let (password_saved, store') =
        look_up (check_credential_store && not (is_unsupported security_level)) s store in
      (
        secret_result s secret_encrypted security_level
            (some (record {
              opslimit = opslimit;
              memlimit = memlimit;
              log_n = log_n;
              r = r;
              p = p;
              is_fallback = is_fallback;
              weakness_multiplier = weakness_multiplier;
            }))
            password_saved,
        store',
      )

  unfoldable pub inspect_decoded :
      SeckeyStruct → Bool → Result (ℕ × ℕ × ℕ) → State → Result InspectResult × State
  unfolding inspect_encrypted
  inspect_decoded s check_credential_store (err e) store = (err e, store)
  inspect_decoded s check_credential_store (ok (log_n, r, p)) store =
      let (result, store') = inspect_encrypted s check_credential_store log_n r p store in
      (ok result, store')

  unfoldable pub inspect_unencrypted : SeckeyStruct → Bool → State → Result InspectResult × State
  unfolding secret_result look_up
  inspect_unencrypted s check_credential_store store =
      let (password_saved, store') = look_up check_credential_store s store in
      (ok (secret_result s secret_unencrypted unprotected none password_saved), store')

  unfoldable pub inspect_secret_key_with_credentials :
      SeckeyStruct → Bool → State → Result InspectResult × State
  unfolding inspect_unencrypted inspect_decoded
  inspect_secret_key_with_credentials s check_credential_store store =
      if not s.encrypted
      then inspect_unencrypted s check_credential_store store
      else inspect_decoded s check_credential_store
          (decode_kdf_params scrypt_params s.kdf_opslimit s.kdf_memlimit) store

-- What is done with a key file, by the kind that its comment names, what reading it as a secret
-- key gives, and what inspecting it as a public key gives. Without a kind both are tried, in
-- this order.
unfoldable pub inspect_as :
    {State : Type 0}
    → (SeckeyStruct → State → Result InspectResult × State)
    → Option KeyFileType
    → Result SeckeyStruct
    → Result InspectResult
    → State
    → Result InspectResult × State
inspect_as inspect_secret (some secret_file) (ok s) public store = inspect_secret s store
inspect_as inspect_secret (some secret_file) (err e) public store = (err e, store)
inspect_as inspect_secret (some public_file) secret public store = (public, store)
inspect_as inspect_secret none (ok s) public store = inspect_secret s store
inspect_as inspect_secret none (err e) (ok result) store = (ok result, store)
inspect_as inspect_secret none (err e) (err e') store =
    (err (invalid_key_format not_a_minisign_key), store)

module _ (b : Base64) where
  unfoldable pub decode_inspection_public_key : Text → Result Bytes
  decode_inspection_public_key contents = do
    l ← data_line (invalid_public_key missing_comment_or_data_line) (lines contents)
    decode_base64_into b l (text_len l)

  unfoldable pub inspect_public_key_file : Text → Result InspectResult
  unfolding decode_inspection_public_key inspect_public_key
  inspect_public_key_file contents = do
    decoded ← decode_inspection_public_key contents
    pubkey ← pubkey_from_bytes decoded
    ok (inspect_public_key pubkey)

  unfoldable pub inspect_base64 : Text → Result InspectResult
  unfolding inspect_public_key
  inspect_base64 s = do pubkey ← pubkey_from_base64 b s; ok (inspect_public_key pubkey)

  -- The match of `inspect` and of `inspect_private`, which differ in what they do with a secret
  -- key.
  unfoldable pub inspect_contents :
      {State : Type 0}
      → (SeckeyStruct → State → Result InspectResult × State)
      → Text
      → State
      → Result InspectResult × State
  unfolding inspect_as sniff_key_file_type inspect_public_key_file
  inspect_contents inspect_secret contents store =
      inspect_as inspect_secret (sniff_key_file_type contents)
        (seckey_from_file_contents b contents) (inspect_public_key_file contents) store

  -- The match, behind the reading of the file.
  unfoldable pub inspect_text :
      {State : Type 0}
      → (SeckeyStruct → State → Result InspectResult × State)
      → Result Text
      → State
      → Result InspectResult × State
  unfolding inspect_contents
  inspect_text inspect_secret (err e) store = (err e, store)
  inspect_text inspect_secret (ok contents) store = inspect_contents inspect_secret contents store

  module _ (disk : Disk) where
    unfoldable pub read_key_file : FilePath → Result Bytes
    read_key_file path =
        map_err (λ e. io (failed_to_read_key_file e))
          (read_secret_file_bounded disk path max_key_file_bytes)

    -- The two steps before the match.
    unfoldable pub read_key_text : FilePath → Result Text
    unfolding read_key_file
    read_key_text path = do
      bytes ← read_key_file path
      map_err (λ e. io (failed_to_read_key_file e)) (utf8_text bytes path)

    unfoldable pub inspect_signature : FilePath → Result (Text × Text × SignatureAlgorithm)
    inspect_signature path = do
      contents ←
          map_err (λ e. io (failed_to_read_signature_file e))
            (read_file_bounded disk path max_signature_file_bytes)
      sig_box ← box_from_file_contents b contents
      let keynum = sig_box.sig_struct.keynum
      ok (to_key_id keynum, keynum_to_words keynum, algorithm sig_box.sig_struct)

    module _ {State : Type 0} (p : Primitives)
        (has_password : Text → State → CredentialStatus × State) where
      unfoldable pub inspect : FilePath → Bool → State → Result InspectResult × State
      unfolding read_key_text inspect_text inspect_secret_key_with_credentials
      inspect path check_credential_store store =
          inspect_text
            (λ s.
              inspect_secret_key_with_credentials p.scrypt_params has_password s
                check_credential_store)
            (read_key_text path) store

      -- With what the opening of the key gave.
      unfoldable pub inspect_opened :
          SeckeyStruct → Result (SecretKey × KeyNum) → State → Result InspectResult × State
      unfolding inspect_secret_key_with_credentials
      inspect_opened s (err e) store = (err e, store)
      inspect_opened s (ok (secret_key, decrypted_keynum)) store =
          let (inspected, store') =
            inspect_secret_key_with_credentials p.scrypt_params has_password s true store in
          (
            inspected >>= λ result. ok (record result {
              key_id = to_key_id decrypted_keynum;
              key_id_words = keynum_to_words decrypted_keynum;
            }),
            store',
          )

      unfoldable pub inspect_private_with_key :
          SeckeyStruct → Bytes → State → Result InspectResult × State
      unfolding inspect_opened
      inspect_private_with_key s password store =
          if not s.encrypted
          then inspect_secret_key_with_credentials p.scrypt_params has_password s true store
          else inspect_opened s (decrypt p s password) store

      unfoldable pub inspect_private : FilePath → Bytes → State → Result InspectResult × State
      unfolding read_key_text inspect_text inspect_private_with_key
      inspect_private path password store =
          inspect_text (λ s. inspect_private_with_key s password) (read_key_text path) store
