-- ===== src/Keys/Sealing/Stored.antt =====
-- A secret key through its file: sealed, written, read and opened.
use minisign_rs.Base.{ℕ, ◌<◌, ◌^◌, ◌≡◌, ap, ◌∙◌, true, none, some, Bytes, Text, IsArray}
use minisign_rs.Errors.{ok, err, ◌>>=◌, password_required}
use minisign_rs.Formats.{Base64, IsBase64}
use minisign_rs.Crypto.{
  KeyNum, IsKeyNum, SecretKey, secret_key_bytes, kdf_salt_bytes, Primitives, ArePrimitives,
}
use minisign_rs.Keys.Seckey.{SeckeyStruct, seckey_to_file_contents, seckey_from_file_contents}
use minisign_rs.Keys.Seckey.Layout.{forget}
use minisign_rs.Keys.Seckey.File.{seckey_from_file_contents-seckey_to_file_contents}
use minisign_rs.Keys.Sealing.{new_encrypted, decrypt, extract_key}
use minisign_rs.Keys.Sealing.Opens.{decrypt-new_encrypted, new_encrypted-IsSeckey, decrypt-forget}

module _ (b : Base64) (codec : IsBase64 b) (p : Primitives) (laws : ArePrimitives p) where
  extract_key-encrypted :
      (s : SeckeyStruct) (password : Bytes)
      → s.encrypted ≡ true
      → extract_key p s (some password) ≡ decrypt p s password
  unfolding extract_key
  extract_key-encrypted s password e = rw (e, extract_key)

  -- A key that is encrypted, written to a file and read from it gives back the same secret key
  -- and key number to whoever has the password, and asks for a password without one.
  pub extract_key-new_encrypted :
      (kn : KeyNum) (sk : SecretKey) (password salt : Bytes) (comment contents : Text) (op mem : ℕ)
      (s : SeckeyStruct)
      → IsKeyNum kn
      → IsArray secret_key_bytes sk.bytes
      → IsArray kdf_salt_bytes salt
      → op < 2 ^ 64
      → mem < 2 ^ 64
      → new_encrypted p kn sk password salt op mem ≡ ok s
      → seckey_to_file_contents b s comment ≡ ok contents
      → ((seckey_from_file_contents b contents >>= λ t. extract_key p t (some password))
          ≡ ok (sk, kn))
        × ((seckey_from_file_contents b contents >>= λ t. extract_key p t none)
            ≡ err password_required)
  unfolding extract_key
  extract_key-new_encrypted kn sk password salt comment contents op mem s hk hs hsalt hop hmem h w =
      let (good, e) =
        new_encrypted-IsSeckey p laws kn sk password salt op mem s hk hs hsalt hop hmem h in
      let back =
        seckey_from_file_contents-seckey_to_file_contents b codec s comment contents good w in
      (
        ap (λ r. r >>= λ t. extract_key p t (some password)) back
            ∙ extract_key-encrypted (forget s) password e
            ∙ decrypt-forget p laws s password e
            ∙ decrypt-new_encrypted p laws kn sk password salt op mem s hk hs h,
        ap (λ r. r >>= λ t. extract_key p t none) back ∙ rw (e, extract_key),
      )
