-- ===== src/Tests/Keys.antt =====
-- Keys with concrete bytes.
use minisign_rs.Base.{
  replicate-IsArray, text_len, All-append, slice, copy_into, ℕ, ◌≡◌, refl, arith, true, none, some,
  [], ◌∷◌, ◌++◌, replicate, All, IsByte, IsArray, Bytes, Text, codes,
}
use minisign_rs.Errors.{ok, err, ◌>>=◌, password_required}
use minisign_rs.Formats.{encode_base64, read_u64_le, from_le_bytes}
use minisign_rs.Validation.{validate_untrusted_comment, is_printable}
use minisign_rs.Crypto.{KeyNum, SecretKey}
use minisign_rs.Signature.{untrusted_prefix, line}
use minisign_rs.Keys.Pubkey.{
  PubkeyStruct, IsPubkey, pubkey_to_bytes, pubkey_from_bytes, pubkey_from_base64,
  pubkey_to_file_contents, pubkey_from_file_contents,
}
use minisign_rs.Keys.Pubkey.File.{pubkey_from_file_contents-pubkey_to_file_contents}
use minisign_rs.Keys.Seckey.{
  SeckeyStruct, IsSeckey, seckey_to_bytes, seckey_from_bytes, seckey_to_file_contents,
  seckey_from_file_contents,
}
use minisign_rs.Keys.Seckey.Layout.{forget}
use minisign_rs.Keys.Seckey.Parsed.{seckey_to_bytes-seckey_from_bytes}
use minisign_rs.Keys.Seckey.File.{seckey_from_file_contents-seckey_to_file_contents}
use minisign_rs.Keys.Sealing.{new_encrypted, decrypt, extract_key}
use minisign_rs.Keys.Sealing.Opens.{decrypt-new_encrypted, new_encrypted-IsSeckey}
use minisign_rs.Keys.Sealing.Stored.{extract_key-new_encrypted}
use minisign_rs.Keys.Sealing.Reseals.{new_encrypted-decrypt}
use minisign_rs.Crypto.{derive_key_with_params, all_zero}
use minisign_rs.Crypto.Kdf.{
  opslimit_memlimit_to_params, decode_kdf_params, is_power_of_two, trailing_zeros,
  trailing_zeros_of, decode_opslimit, check_kdf_budget, checked_mul,
}
use minisign_rs.Keys.Sealing.{compute_checksum, xor_bytes}
use minisign_rs.Tests.Models.{
  stretch, digest, sum, hex, hex-IsBase64, toy, toy-ArePrimitives, hex_encode,
}

abbrev kn : KeyNum
kn = record { bytes = replicate 8 1 }

abbrev sk : SecretKey
sk = record { bytes = replicate 64 7 }

abbrev password : Bytes
password = 1 ∷ 2 ∷ []

abbrev salt : Bytes
salt = replicate 32 9

abbrev op : ℕ
op = 4194304

abbrev mem : ℕ
mem = 134217728

abbrev sealed : SeckeyStruct
sealed = record {
  encrypted = true;
  kdf_salt = salt;
  kdf_opslimit = op;
  kdf_memlimit = mem;
  keynum = kn;
  encrypted_keynum = replicate 8 5;
  secret_key_encrypted = replicate 64 3;
  checksum = replicate 32 117;
}

sealed_lem : new_encrypted toy kn sk password salt op mem ≡ ok sealed
unfolding new_encrypted opslimit_memlimit_to_params decode_kdf_params is_power_of_two trailing_zeros
    trailing_zeros_of decode_opslimit check_kdf_budget checked_mul derive_key_with_params all_zero
    compute_checksum xor_bytes stretch digest sum slice copy_into
sealed_lem = refl

kn-IsKeyNum : IsArray 8 kn.bytes
kn-IsKeyNum = replicate-IsArray 8 1 (omega arith)

sk-IsArray : IsArray 64 sk.bytes
sk-IsArray = replicate-IsArray 64 7 (omega arith)

salt-IsArray : IsArray 32 salt
salt-IsArray = replicate-IsArray 32 9 (omega arith)

abbrev comment : Text
comment = codes "key"

abbrev contents : Text
contents = line (untrusted_prefix ++ comment) (line (hex_encode (seckey_to_bytes sealed)) [])

contents_lem : seckey_to_file_contents hex sealed comment ≡ ok contents
unfolding seckey_to_file_contents encode_base64 validate_untrusted_comment is_printable text_len
contents_lem = refl

extract_key-new_encrypted_example :
    ((seckey_from_file_contents hex contents >>= λ t. extract_key toy t (some password))
      ≡ ok (sk, kn))
    × ((seckey_from_file_contents hex contents >>= λ t. extract_key toy t none)
        ≡ err password_required)
extract_key-new_encrypted_example =
    extract_key-new_encrypted hex hex-IsBase64 toy toy-ArePrimitives kn sk password salt comment
      contents op mem sealed kn-IsKeyNum sk-IsArray salt-IsArray (omega arith) (omega arith)
      sealed_lem contents_lem

sealed-IsSeckey : IsSeckey sealed × (sealed.encrypted ≡ true)
sealed-IsSeckey =
    new_encrypted-IsSeckey toy toy-ArePrimitives kn sk password salt op mem sealed kn-IsKeyNum
      sk-IsArray salt-IsArray (omega arith) (omega arith) sealed_lem

opened_lem : decrypt toy sealed password ≡ ok (sk, kn)
opened_lem =
    decrypt-new_encrypted toy toy-ArePrimitives kn sk password salt op mem sealed kn-IsKeyNum
      sk-IsArray sealed_lem

new_encrypted-decrypt_example :
    new_encrypted toy kn sk password sealed.kdf_salt sealed.kdf_opslimit sealed.kdf_memlimit
    ≡ ok (record sealed { keynum = kn })
new_encrypted-decrypt_example =
    new_encrypted-decrypt toy toy-ArePrimitives sealed password sk kn sealed-IsSeckey.0 opened_lem

seckey_from_file_contents-seckey_to_file_contents_example :
    seckey_from_file_contents hex contents ≡ ok (forget sealed)
seckey_from_file_contents-seckey_to_file_contents_example =
    seckey_from_file_contents-seckey_to_file_contents hex hex-IsBase64 sealed comment contents
      sealed-IsSeckey.0 contents_lem

-- The stored bytes: the labels of the format, then 156 bytes that are all 7.
abbrev stored : Bytes
stored = (b'E' ∷ b'd' ∷ b'S' ∷ b'c' ∷ b'B' ∷ b'2' ∷ []) ++ replicate 152 7

abbrev sevens : ℕ
sevens = 0x0707070707070707

abbrev parsed : SeckeyStruct
parsed = record {
  encrypted = true;
  kdf_salt = replicate 32 7;
  kdf_opslimit = sevens;
  kdf_memlimit = sevens;
  keynum = record { bytes = replicate 8 0 };
  encrypted_keynum = replicate 8 7;
  secret_key_encrypted = replicate 64 7;
  checksum = replicate 32 7;
}

stored-IsByte : All IsByte stored
stored-IsByte = (
  omega arith,
  (
    omega arith,
    (
      omega arith,
      (omega arith, (omega arith, (omega arith, (replicate-IsArray 152 7 (omega arith)).1))),
    ),
  ),
)

parsed_lem : seckey_from_bytes stored ≡ ok parsed
unfolding seckey_from_bytes slice read_u64_le from_le_bytes
parsed_lem = refl

seckey_to_bytes-seckey_from_bytes_example : IsSeckey parsed × (seckey_to_bytes parsed ≡ stored)
seckey_to_bytes-seckey_from_bytes_example =
    seckey_to_bytes-seckey_from_bytes stored parsed stored-IsByte parsed_lem

abbrev pubkey : PubkeyStruct
pubkey = record { keynum = kn; public_key = record { bytes = replicate 32 6 } }

pubkey-IsPubkey : IsPubkey pubkey
pubkey-IsPubkey = (kn-IsKeyNum, replicate-IsArray 32 6 (omega arith))

abbrev pubkey_bytes : Bytes
pubkey_bytes = (b'E' ∷ b'd' ∷ []) ++ (replicate 8 1 ++ replicate 32 6)

pubkey_bytes-IsByte : All IsByte pubkey_bytes
pubkey_bytes-IsByte = (
  omega arith,
  (
    omega arith,
    All-append IsByte (replicate 8 1) (replicate 32 6) kn-IsKeyNum.1
        (replicate-IsArray 32 6 (omega arith)).1,
  ),
)

pubkey_bytes_lem : pubkey_from_bytes pubkey_bytes ≡ ok pubkey
unfolding pubkey_from_bytes slice
pubkey_bytes_lem = refl

abbrev pubkey_contents : Text
pubkey_contents = line (untrusted_prefix ++ comment) (line (hex_encode (pubkey_to_bytes pubkey)) [])

pubkey_contents_lem : pubkey_to_file_contents hex pubkey comment ≡ ok pubkey_contents
unfolding pubkey_to_file_contents encode_base64 validate_untrusted_comment is_printable text_len
pubkey_contents_lem = refl

pubkey_from_file_contents-pubkey_to_file_contents_example :
    (pubkey_from_file_contents hex pubkey_contents ≡ ok pubkey)
    × (pubkey_from_base64 hex (encode_base64 hex (pubkey_to_bytes pubkey)) ≡ ok pubkey)
pubkey_from_file_contents-pubkey_to_file_contents_example =
    pubkey_from_file_contents-pubkey_to_file_contents hex hex-IsBase64 pubkey comment
      pubkey_contents pubkey-IsPubkey pubkey_contents_lem
