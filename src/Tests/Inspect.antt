-- ===== src/Tests/Inspect.antt =====
-- The inspection of concrete keys.
use minisign_rs.Base.{
  replicate-IsArray, ℕ, ◌+◌, ◌*◌, ◌↔◌, ◌&&◌, if◌then◌else◌, leb, ◌^◌, ◌<◌, ◌≡◌, ◌≢◌, refl, arith,
  Bool, true, some, [], ◌∷◌, ◌++◌, ltb, replicate, Text, codes, text_len,
}
use minisign_rs.Errors.{Result, ok, err, is_err, kdf_over_budget}
use minisign_rs.Formats.{encode_base64}
use minisign_rs.Validation.{validate_untrusted_comment, is_printable}
use minisign_rs.Crypto.Kdf.{
  decode_kdf_params, is_power_of_two, trailing_zeros, decode_opslimit, check_kdf_budget,
}
use minisign_rs.Signature.{untrusted_prefix, line}
use minisign_rs.Keys.Seckey.{
  SeckeyStruct, credential_id, IsSeckey, seckey_to_bytes, seckey_to_file_contents,
}
use minisign_rs.Keys.Seckey.Layout.{forget}
use minisign_rs.Keys.Sealing.{decrypt}
use minisign_rs.Ops.Inspect.{
  unsupported, CredentialStatus, saved, not_saved, InspectResult, from_kdf_params,
  inspect_encrypted, inspect_secret_key_with_credentials, public_file, sniff_key_file_type,
  inspect_contents,
}
use minisign_rs.Ops.Inspect.Levels.{level_of, inspect_secret_key_with_credentials-level_of}
use minisign_rs.Ops.Inspect.Refused.{budget, decrypt-budget}
use minisign_rs.Ops.Inspect.Mislabelled.{inspect_contents-seckey_to_file_contents}
use minisign_rs.Tests.Models.{hex, hex-IsBase64, hex_encode, toy}

-- A key whose derivation would take 2 GiB.
abbrev large : SeckeyStruct
large = record {
  encrypted = true;
  kdf_salt = replicate 32 9;
  kdf_opslimit = 67108864;
  kdf_memlimit = 2147483648;
  keynum = record { bytes = replicate 8 0 };
  encrypted_keynum = replicate 8 5;
  secret_key_encrypted = replicate 64 3;
  checksum = replicate 32 117;
}

abbrev any_params : ℕ → ℕ → ℕ → ℕ → Bool
any_params log_n r q n = ltb log_n 64

-- The credential store counts how often it is asked.
abbrev always_saved : Text → ℕ → CredentialStatus × ℕ
always_saved id asked = (saved, asked + 1)

abbrev shown : InspectResult
shown = (inspect_encrypted any_params always_saved large true 21 8 1 0).0

inspected : inspect_secret_key_with_credentials any_params always_saved large true 0 ≡ (ok shown, 0)
unfolding inspect_secret_key_with_credentials decode_kdf_params is_power_of_two trailing_zeros
    decode_opslimit from_kdf_params check_kdf_budget
inspected = refl

-- A key within the budget is looked up.
abbrev fitting : SeckeyStruct
fitting = record large { kdf_opslimit = 33554432; kdf_memlimit = 1073741824 }

asked_once : (inspect_secret_key_with_credentials any_params always_saved fitting true 0).1 ≡ 1
unfolding inspect_secret_key_with_credentials decode_kdf_params is_power_of_two trailing_zeros
    decode_opslimit from_kdf_params check_kdf_budget
asked_once = refl

inspect_secret_key_with_credentials-level_of_example :
    (l : ℕ) × (large.kdf_opslimit ≡ 32 * 2 ^ l)
    × (large.kdf_memlimit ≡ 1024 * 2 ^ l)
    × (shown.security_level ≡ some (level_of l))
    × ◌≡◌ {A = CredentialStatus × ℕ}
        (shown.password_saved, 0)
        (if true && leb l 20 then always_saved (credential_id large) 0 else (not_saved, 0))
inspect_secret_key_with_credentials-level_of_example =
    inspect_secret_key_with_credentials-level_of any_params always_saved large true shown 0 0 refl
      (omega arith) inspected

toy_inspected :
    inspect_secret_key_with_credentials toy.scrypt_params always_saved large true 0 ≡ (ok shown, 0)
unfolding inspect_secret_key_with_credentials decode_kdf_params is_power_of_two trailing_zeros
    decode_opslimit from_kdf_params check_kdf_budget
toy_inspected = refl

decrypt-budget_example :
    ((decrypt toy large (1 ∷ []) ≡ err (kdf_over_budget large.kdf_memlimit budget))
      ↔ (budget < large.kdf_memlimit))
    × ((shown.security_level ≡ some unsupported) ↔ (budget < large.kdf_memlimit))
decrypt-budget_example =
    decrypt-budget toy always_saved large true shown 0 0 (1 ∷ []) refl (omega arith) toy_inspected

large-IsSeckey : IsSeckey large
large-IsSeckey = record {
  salt_array = replicate-IsArray 32 9 (omega arith);
  opslimit_u64 = omega arith;
  memlimit_u64 = omega arith;
  keynum_array = replicate-IsArray 8 0 (omega arith);
  encrypted_keynum_array = replicate-IsArray 8 5 (omega arith);
  secret_key_array = replicate-IsArray 64 3 (omega arith);
  checksum_array = replicate-IsArray 32 117 (omega arith);
}

-- A secret key under the comment of a public one.
abbrev comment : Text
comment = codes "minisign public key"

abbrev contents : Text
contents = line (untrusted_prefix ++ comment) (line (hex_encode (seckey_to_bytes large)) [])

written : seckey_to_file_contents hex large comment ≡ ok contents
unfolding seckey_to_file_contents encode_base64 validate_untrusted_comment is_printable text_len
written = refl

abbrev inspect_large : SeckeyStruct → ℕ → Result InspectResult × ℕ
inspect_large s = inspect_secret_key_with_credentials any_params always_saved s true

inspect_contents-seckey_to_file_contents_example :
    (sniff_key_file_type contents ≢ some public_file
      → inspect_contents hex inspect_large contents 0 ≡ inspect_large (forget large) 0)
    × (sniff_key_file_type contents ≡ some public_file
        → (is_err (inspect_contents hex inspect_large contents 0).0 ≡ true)
          × ((inspect_contents hex inspect_large contents 0).1 ≡ 0))
inspect_contents-seckey_to_file_contents_example =
    inspect_contents-seckey_to_file_contents hex hex-IsBase64 inspect_large large comment contents 0
      large-IsSeckey written
