-- ===== src/Keys/Pubkey/File.antt =====
-- The 42 bytes of a public key and its file: what is written is read back.
use minisign_rs.Base.{
  ◌≡◌, refl, sym, ap, ap₂, ◌∙◌, List, [], ◌∷◌, ◌++◌, append-nil, arith, length, slice, length-slice,
  slice_all, slice-join, slice_field, copy_field, length-cat, cat, All, All-cat, All-append,
  All-slice, copy_into, Bytes, Text, IsByte, IsInLine, list_eq_iff, lines, lines-append, lines-nil,
}
use minisign_rs.Errors.{ok}
use minisign_rs.Formats.{Base64, IsBase64, encode_base64}
use minisign_rs.Validation.{validate_untrusted_comment}
use minisign_rs.Validation.Accepted.{untrusted_comment-IsInLine}
use minisign_rs.Signature.{untrusted_prefix, line}
use minisign_rs.Signature.File.{decode_base64-encode_base64, encode_base64-IsInLine}
use minisign_rs.Keys.Pubkey.{
  PubkeyStruct, IsPubkey, sig_alg, pubkey_to_bytes, pubkey_from_bytes, pubkey_from_base64,
  pubkey_from_file_contents, pubkey_to_file_contents,
}

abbrev fields : PubkeyStruct → List Bytes
fields k = sig_alg ∷ k.keynum.bytes ∷ k.public_key.bytes ∷ []

pubkey_to_bytes-fields : (k : PubkeyStruct) → IsPubkey k → pubkey_to_bytes k ≡ cat (fields k)
unfolding pubkey_to_bytes
pubkey_to_bytes-fields k h =
    let kn = k.keynum.bytes in
    let pk = k.public_key.bytes in
    ap (λ x. copy_into 10 42 pk (copy_into 2 10 kn x))
      (copy_field 0 2 42 40 0 [] sig_alg refl (omega arith) refl)
    ∙ ap (copy_into 10 42 pk)
        (copy_field 2 10 40 32 0 (sig_alg ∷ []) kn (omega arith) (omega arith) refl)
    ∙ copy_field 10 42 32 0 0 (sig_alg ∷ kn ∷ []) pk (omega arith) (omega arith) refl
    ∙ append-nil _

pub length-pubkey_to_bytes : (k : PubkeyStruct) → IsPubkey k → length (pubkey_to_bytes k) ≡ 42
length-pubkey_to_bytes k h =
    ap length (pubkey_to_bytes-fields k h) ∙ omega (arith, length-cat (fields k))

pub pubkey_to_bytes-IsByte : (k : PubkeyStruct) → IsPubkey k → All IsByte (pubkey_to_bytes k)
pubkey_to_bytes-IsByte k h =
    rw (pubkey_to_bytes-fields k h) (All-cat IsByte (fields k) (omega arith, (h.0.1, (h.1.1, tt))))

-- A public key with arrays of the right sizes is read back from its bytes.
pub pubkey_from_bytes-pubkey_to_bytes :
    (k : PubkeyStruct) → IsPubkey k → pubkey_from_bytes (pubkey_to_bytes k) ≡ ok k
unfolding pubkey_from_bytes
pubkey_from_bytes-pubkey_to_bytes k h =
    let kn = k.keynum.bytes in
    let pk = k.public_key.bytes in
    let parts = pubkey_to_bytes-fields k h in
    let alg_at = ap (slice 0 2) parts ∙ slice_field 0 2 [] sig_alg (kn ∷ pk ∷ []) refl refl in
    let kn_at =
      ap (slice 2 10) parts
      ∙ slice_field 2 10 (sig_alg ∷ []) kn (pk ∷ []) (omega arith) (omega arith) in
    let pk_at =
      ap (slice 10 42) parts
      ∙ slice_field 10 42 (sig_alg ∷ kn ∷ []) pk [] (omega arith) (omega arith) in
    rw (length-pubkey_to_bytes k h, alg_at, kn_at, pk_at) refl

pubkey_from_bytes_inv :
    (bs : Bytes) (k : PubkeyStruct)
    → pubkey_from_bytes bs ≡ ok k
    → (length bs ≡ 42)
      × (slice 0 2 bs ≡ sig_alg)
      × (k.keynum.bytes ≡ slice 2 10 bs)
      × (k.public_key.bytes ≡ slice 10 42 bs)
unfolding pubkey_from_bytes
pubkey_from_bytes_inv bs k h = ground (arith, list_eq_iff (slice 0 2 bs) sig_alg)

-- Whatever bytes are accepted as a public key, its arrays have the right sizes and it prints as
-- exactly these bytes.
pub pubkey_to_bytes-pubkey_from_bytes :
    (bs : Bytes) (k : PubkeyStruct)
    → All IsByte bs
    → pubkey_from_bytes bs ≡ ok k
    → IsPubkey k × (pubkey_to_bytes k ≡ bs)
pubkey_to_bytes-pubkey_from_bytes bs k hb h =
    let (len, alg, kn, pk) = pubkey_from_bytes_inv bs k h in
    let kn_len : length k.keynum.bytes ≡ 8 =
      ap length kn ∙ length-slice 2 10 bs (omega arith) (omega arith) in
    let pk_len : length k.public_key.bytes ≡ 32 =
      ap length pk ∙ length-slice 10 42 bs (omega arith) (omega arith) in
    let kn_bytes : All IsByte k.keynum.bytes = rw kn (All-slice IsByte 2 10 bs hb) in
    let pk_bytes : All IsByte k.public_key.bytes = rw pk (All-slice IsByte 10 42 bs hb) in
    let good : IsPubkey k = ((kn_len, kn_bytes), (pk_len, pk_bytes)) in
    (
      good,
      pubkey_to_bytes-fields k good
          ∙ ap₂ ◌++◌ (sym alg) (ap₂ ◌++◌ kn (append-nil _ ∙ pk))
          ∙ slice-join 0 2 42 bs _ (omega arith) (omega arith)
              (slice-join 2 10 42 bs _ (omega arith) (omega arith) refl)
          ∙ slice_all 42 bs len,
    )

module _ (b : Base64) (laws : IsBase64 b) where
  -- The two lines of a key file, under a comment that is accepted.
  pub lines-key_file :
      (comment : Text) (bs : Bytes)
      → validate_untrusted_comment comment ≡ ok tt
      → All IsByte bs
      → lines (line (untrusted_prefix ++ comment) (line (encode_base64 b bs) []))
        ≡ (untrusted_prefix ++ comment) ∷ encode_base64 b bs ∷ []
  lines-key_file comment bs accepted h =
      let u =
        All-append IsInLine untrusted_prefix comment (ground arith)
          (untrusted_comment-IsInLine comment accepted) in
      lines-append _ _ u (lines-append _ _ (encode_base64-IsInLine b laws bs h) lines-nil)

  pubkey_from_base64-encode_base64 :
      (k : PubkeyStruct)
      → IsPubkey k
      → pubkey_from_base64 b (encode_base64 b (pubkey_to_bytes k)) ≡ ok k
  unfolding pubkey_from_base64
  pubkey_from_base64-encode_base64 k h =
      rw (decode_base64-encode_base64 b laws (pubkey_to_bytes k) (pubkey_to_bytes-IsByte k h))
        (pubkey_from_bytes-pubkey_to_bytes k h)

  pubkey_from_written :
      (k : PubkeyStruct) (comment : Text)
      → IsPubkey k
      → validate_untrusted_comment comment ≡ ok tt
      → pubkey_from_file_contents b
          (line (untrusted_prefix ++ comment) (line (encode_base64 b (pubkey_to_bytes k)) []))
        ≡ ok k
  unfolding pubkey_from_file_contents
  pubkey_from_written k comment h accepted =
      rw (lines-key_file comment (pubkey_to_bytes k) accepted (pubkey_to_bytes-IsByte k h))
        (unfold pubkey_from_base64 in pubkey_from_base64-encode_base64 k h)

  -- A public key file that was written is read back as the same key, and so is the base64 text
  -- alone.
  pub pubkey_from_file_contents-pubkey_to_file_contents :
      (k : PubkeyStruct) (comment contents : Text)
      → IsPubkey k
      → pubkey_to_file_contents b k comment ≡ ok contents
      → (pubkey_from_file_contents b contents ≡ ok k)
        × (pubkey_from_base64 b (encode_base64 b (pubkey_to_bytes k)) ≡ ok k)
  unfolding pubkey_to_file_contents
  pubkey_from_file_contents-pubkey_to_file_contents k comment contents h e =
      (ground (arith, pubkey_from_written k comment h), pubkey_from_base64-encode_base64 k h)
