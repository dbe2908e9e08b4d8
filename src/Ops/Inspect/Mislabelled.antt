-- ===== src/Ops/Inspect/Mislabelled.antt =====
-- The inspection of a secret key file that was written, whatever its comment says.
use minisign_rs.Base.{
  ℕ, ◌≡◌, ◌≢◌, refl, sym, ap, ◌∙◌, true, Option, none, some, List, [], ◌∷◌, ◌++◌, arith, length,
  Bytes, Text, text_len, lines,
}
use minisign_rs.Errors.{
  Result, ok, err, ◌>>=◌, is_err, >>=-eq-ok, invalid_public_key, missing_comment_or_data_line,
}
use minisign_rs.Formats.{Base64, IsBase64, encode_base64, decode_base64_into}
use minisign_rs.Validation.{validate_untrusted_comment}
use minisign_rs.Signature.{untrusted_prefix, line}
use minisign_rs.Keys.Pubkey.{pubkey_from_bytes, data_line}
use minisign_rs.Keys.Pubkey.File.{lines-key_file}
use minisign_rs.Keys.Seckey.{SeckeyStruct, IsSeckey, seckey_to_bytes, seckey_to_file_contents}
use minisign_rs.Keys.Seckey.Layout.{forget, length-seckey_to_bytes, seckey_to_bytes-IsByte}
use minisign_rs.Keys.Seckey.File.{seckey_from_file_contents-seckey_to_file_contents}
use minisign_rs.Ops.Inspect.{
  InspectResult, KeyFileType, secret_file, public_file, sniff_key_file_type,
  decode_inspection_public_key, inspect_public_key_file, inspect_as, inspect_contents,
}

err_from {ℓ κ} :
    {A : Type ℓ} {B : Type κ} (m : Result A) (f : A → Result B)
    → ((a : A) → m ≡ ok a → is_err (f a) ≡ true)
    → is_err (m >>= f) ≡ true
err_from (ok a) f h = h a refl
err_from (err e) f h = refl

wrong_size : (bs : Bytes) → length bs ≡ 158 → is_err (pubkey_from_bytes bs) ≡ true
unfolding pubkey_from_bytes
wrong_size bs h = ground arith

err_kept {ℓ κ} :
    {A : Type ℓ} {B : Type κ} (m : Result A) (f : A → Result B)
    → is_err m ≡ true
    → is_err (m >>= f) ≡ true
err_kept (ok a) f h = cc
err_kept (err e) f h = refl

-- A file that reads as a secret key and is refused as a public key.
inspect_as_secret :
    {State : Type 0} (f : SeckeyStruct → State → Result InspectResult × State)
    (kind : Option KeyFileType) (s : SeckeyStruct) (public : Result InspectResult) (store : State)
    → is_err public ≡ true
    → (kind ≢ some public_file → inspect_as f kind (ok s) public store ≡ f s store)
      × (kind ≡ some public_file
          → (is_err (inspect_as f kind (ok s) public store).0 ≡ true)
            × ((inspect_as f kind (ok s) public store).1 ≡ store))
unfolding inspect_as
inspect_as_secret f none s public store h = ((λ k. refl), (λ k. cc))
inspect_as_secret f (some secret_file) s public store h = ((λ k. refl), (λ k. cc))
inspect_as_secret f (some public_file) s public store h = ((λ k. absurd (k refl)), (λ k. (h, refl)))

module _ (b : Base64) (laws : IsBase64 b) where
  open laws use {decode-encode, decode_slice_decodes}

  decode_base64_into-ok :
      (t : Text) (n : ℕ) (bs : Bytes) → decode_base64_into b t n ≡ ok bs → b.decode t ≡ some bs
  unfolding decode_base64_into
  decode_base64_into-ok t n bs h = ground (arith, decode_slice_decodes t n bs)

  secret_as_public :
      (s : SeckeyStruct) (l : Text)
      → IsSeckey s
      → l ≡ encode_base64 b (seckey_to_bytes s)
      → (bs : Bytes) → decode_base64_into b l (text_len l) ≡ ok bs
      → is_err (pubkey_from_bytes bs) ≡ true
  unfolding encode_base64
  secret_as_public s l h same bs read =
      let bytes = decode-encode (seckey_to_bytes s) (seckey_to_bytes-IsByte s h) in
      let found = decode_base64_into-ok l (text_len l) bs read in
      let equal : seckey_to_bytes s ≡ bs = cc in
      wrong_size bs (sym (ap length equal) ∙ length-seckey_to_bytes s h)

  lines_written :
      (s : SeckeyStruct) (comment contents : Text)
      → IsSeckey s
      → seckey_to_file_contents b s comment ≡ ok contents
      → lines contents ≡ (untrusted_prefix ++ comment) ∷ encode_base64 b (seckey_to_bytes s) ∷ []
  unfolding seckey_to_file_contents
  lines_written s comment contents h written =
      let (u, valid, made) = >>=-eq-ok (validate_untrusted_comment comment) _ written in
      let same : line (untrusted_prefix ++ comment) (line (encode_base64 b (seckey_to_bytes s)) [])
          ≡ contents =
        cc in
      ap lines (sym same)
      ∙ lines-key_file b laws comment (seckey_to_bytes s) valid (seckey_to_bytes-IsByte s h)

  is_err-inspect_public_key_file :
      (s : SeckeyStruct) (comment contents : Text)
      → IsSeckey s
      → seckey_to_file_contents b s comment ≡ ok contents
      → is_err (inspect_public_key_file b contents) ≡ true
  unfolding inspect_public_key_file data_line
  is_err-inspect_public_key_file s comment contents h written =
      let ls = lines_written s comment contents h written in
      let refused = secret_as_public s (encode_base64 b (seckey_to_bytes s)) h refl in
      err_from (decode_inspection_public_key b contents) _
        (λ bs got. err_kept (pubkey_from_bytes bs) _ (refused bs (sym (ap decode_second ls) ∙ got)))
    where
      decode_second : List Text → Result Bytes
      decode_second xs = data_line (invalid_public_key missing_comment_or_data_line) xs >>= λ l.
          decode_base64_into b l (text_len l)

  -- A secret key file that was written is never shown as a public key, whatever its comment: if
  -- the comment does not call it public, the secret key is inspected, the one that reading gives;
  -- if it does, the inspection fails, and does not ask the credential store.
  pub inspect_contents-seckey_to_file_contents :
      {State : Type 0} (inspect_secret : SeckeyStruct → State → Result InspectResult × State)
      (s : SeckeyStruct) (comment contents : Text) (store : State)
      → IsSeckey s
      → seckey_to_file_contents b s comment ≡ ok contents
      → (sniff_key_file_type contents ≢ some public_file
          → inspect_contents b inspect_secret contents store ≡ inspect_secret (forget s) store)
        × (sniff_key_file_type contents ≡ some public_file
            → (is_err (inspect_contents b inspect_secret contents store).0 ≡ true)
              × ((inspect_contents b inspect_secret contents store).1 ≡ store))
  unfolding inspect_contents
  inspect_contents-seckey_to_file_contents inspect_secret s comment contents store h written =
      let read =
        seckey_from_file_contents-seckey_to_file_contents b laws s comment contents h written in
      let refused = is_err-inspect_public_key_file s comment contents h written in
      rw read (
        inspect_as_secret inspect_secret (sniff_key_file_type contents) (forget s)
          (inspect_public_key_file b contents) store refused)
