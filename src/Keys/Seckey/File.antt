-- ===== src/Keys/Seckey/File.antt =====
-- The secret key file: what is written is read back.
use minisign_rs.Base.{ℕ, ◌≤◌, ◌≡◌, [], ◌++◌, arith, length, All, Bytes, Text, IsByte}
use minisign_rs.Errors.{ok}
use minisign_rs.Formats.{Base64, IsBase64, encode_base64, decode_base64_into}
use minisign_rs.Validation.{validate_untrusted_comment}
use minisign_rs.Signature.{untrusted_prefix, line}
use minisign_rs.Keys.Pubkey.File.{lines-key_file}
use minisign_rs.Keys.Seckey.{
  SeckeyStruct, IsSeckey, seckey_to_bytes, seckey_to_file_contents, seckey_from_file_contents,
}
use minisign_rs.Keys.Seckey.Layout.{
  forget, length-seckey_to_bytes, seckey_to_bytes-IsByte, seckey_from_bytes-seckey_to_bytes,
}

module _ (b : Base64) (laws : IsBase64 b) where
  open laws use {decode-encode, decode_slice_fits}

  decode_base64_into-encode_base64 :
      (bs : Bytes) (n : ℕ)
      → All IsByte bs
      → length bs ≤ n
      → decode_base64_into b (encode_base64 b bs) n ≡ ok bs
  unfolding decode_base64_into encode_base64
  decode_base64_into-encode_base64 bs n h fits =
      rw (decode_slice_fits (b.encode bs) n bs (decode-encode bs h) fits, decode_base64_into)

  seckey_from_written :
      (s : SeckeyStruct) (comment : Text)
      → IsSeckey s
      → validate_untrusted_comment comment ≡ ok tt
      → seckey_from_file_contents b
          (line (untrusted_prefix ++ comment) (line (encode_base64 b (seckey_to_bytes s)) []))
        ≡ ok (forget s)
  unfolding seckey_from_file_contents
  seckey_from_written s comment h accepted =
      let bytes = seckey_to_bytes-IsByte s h in
      let len = length-seckey_to_bytes s h in
      rw (lines-key_file b laws comment (seckey_to_bytes s) accepted bytes) (
        rw (decode_base64_into-encode_base64 (seckey_to_bytes s) 158 bytes (omega arith))
          (seckey_from_bytes-seckey_to_bytes s h))

  -- A secret key file that was written is read back as the same key, but for the key number that
  -- the format does not hold.
  pub seckey_from_file_contents-seckey_to_file_contents :
      (s : SeckeyStruct) (comment contents : Text)
      → IsSeckey s
      → seckey_to_file_contents b s comment ≡ ok contents
      → seckey_from_file_contents b contents ≡ ok (forget s)
  unfolding seckey_to_file_contents
  seckey_from_file_contents-seckey_to_file_contents s comment contents h e =
      ground (arith, seckey_from_written s comment h)
