-- ===== src/Signature/File.antt =====
-- The signature file: what is written is read back, and what is read was accepted by the checks.
use minisign_rs.Base.{
  ◌≡◌, refl, ap, ◌∙◌, List, [], ◌∷◌, ◌++◌, arith, All, All-append, Bytes, Text, IsArray, IsByte,
  IsInLine, lines, lines-append, lines-nil, strip_prefix-append,
}
use minisign_rs.Errors.{Error, ok, ◌>>=◌, >>=-eq-ok}
use minisign_rs.Formats.{Base64, IsBase64, encode_base64, decode_base64}
use minisign_rs.Crypto.{Signature, signature_bytes}
use minisign_rs.Validation.{validate_untrusted_comment, validate_trusted_comment}
use minisign_rs.Validation.Accepted.{untrusted_comment-IsInLine, trusted_comment-IsInLine}
use minisign_rs.Signature.{
  SigStruct, IsSigStruct, SignatureBox, sig_to_bytes, sig_from_bytes, box_from_file_contents,
  box_to_file_contents, parse_four_lines, parse_lines, parse_global_signature, strip_comment,
  untrusted_prefix, trusted_prefix, new_box,
}
use minisign_rs.Signature.Struct.{
  sig_from_bytes-sig_to_bytes, sig_to_bytes-IsByte, sig_to_bytes-sig_from_bytes,
}

-- A box that the constructors make: the arrays have their sizes, and both comments pass.
pub record IsBox (box : SignatureBox) : Type 0 where
  pub sig_struct_arrays : IsSigStruct box.sig_struct
  pub global_array : IsArray signature_bytes box.global_signature.bytes
  pub untrusted_accepted : validate_untrusted_comment box.untrusted_comment ≡ ok tt
  pub trusted_accepted : validate_trusted_comment box.trusted_comment ≡ ok tt

-- The constructor makes a box exactly when both comments pass, and it is the box of its arguments.
pub new_box-IsBox :
    (u : Text) (s : SigStruct) (t : Text) (g : Signature) (box : SignatureBox)
    → IsSigStruct s
    → IsArray signature_bytes g.bytes
    → new_box u s t g ≡ ok box
    → IsBox box
unfolding new_box
new_box-IsBox u s t g box hs hg h = ground arith

strip_comment-append :
    (prefix : Text) (e : Error) (s : Text) → strip_comment prefix e (prefix ++ s) ≡ ok s
unfolding strip_comment
strip_comment-append prefix e s = rw (strip_prefix-append prefix s, strip_comment)

module _ (b : Base64) (laws : IsBase64 b) where
  open laws use {decode-encode, encode-IsInLine, decode-IsByte}

  pub decode_base64-encode_base64 :
      (bs : Bytes) → All IsByte bs → decode_base64 b (encode_base64 b bs) ≡ ok bs
  unfolding decode_base64 encode_base64
  decode_base64-encode_base64 bs h = rw (decode-encode bs h, decode_base64)

  pub encode_base64-IsInLine : (bs : Bytes) → All IsByte bs → All IsInLine (encode_base64 b bs)
  unfolding encode_base64
  encode_base64-IsInLine bs h = encode-IsInLine bs h

  parse_global_signature-encode_base64 :
      (g : Signature)
      → IsArray signature_bytes g.bytes
      → parse_global_signature b (encode_base64 b g.bytes) ≡ ok g
  unfolding parse_global_signature
  parse_global_signature-encode_base64 g h =
      rw (decode_base64-encode_base64 g.bytes h.1) (rw h.0 refl)

  parse_lines_printed :
      (box : SignatureBox)
      → IsBox box
      → parse_lines b
          (untrusted_prefix ++ box.untrusted_comment)
          (encode_base64 b (sig_to_bytes box.sig_struct))
          (trusted_prefix ++ box.trusted_comment)
          (encode_base64 b box.global_signature.bytes)
        ≡ ok box
  unfolding parse_lines
  parse_lines_printed box h =
      let s = box.sig_struct in
      rw (strip_comment-append untrusted_prefix _ box.untrusted_comment, h.untrusted_accepted)
        (rw
          (decode_base64-encode_base64 (sig_to_bytes s) (sig_to_bytes-IsByte s h.sig_struct_arrays))
          (rw (sig_from_bytes-sig_to_bytes s h.sig_struct_arrays) (
            rw (strip_comment-append trusted_prefix _ box.trusted_comment, h.trusted_accepted)
              (rw (parse_global_signature-encode_base64 box.global_signature h.global_array)
                refl))))

  lines_printed :
      (box : SignatureBox)
      → IsBox box
      → lines (box_to_file_contents b box)
        ≡ (untrusted_prefix ++ box.untrusted_comment)
          ∷ encode_base64 b (sig_to_bytes box.sig_struct)
          ∷ (trusted_prefix ++ box.trusted_comment)
          ∷ encode_base64 b box.global_signature.bytes
          ∷ []
  unfolding box_to_file_contents
  lines_printed box h =
      let s = box.sig_struct in
      let u =
        All-append IsInLine untrusted_prefix box.untrusted_comment (ground arith)
          (untrusted_comment-IsInLine box.untrusted_comment h.untrusted_accepted) in
      let t =
        All-append IsInLine trusted_prefix box.trusted_comment (ground arith)
          (trusted_comment-IsInLine box.trusted_comment h.trusted_accepted) in
      let e = encode_base64-IsInLine (sig_to_bytes s) (sig_to_bytes-IsByte s h.sig_struct_arrays) in
      let g = encode_base64-IsInLine box.global_signature.bytes h.global_array.1 in
      lines-append _ _ u (lines-append _ _ e (lines-append _ _ t (lines-append _ _ g lines-nil)))

  -- A box that the constructors make is read back from the file that is written for it.
  pub box_from_file_contents-box_to_file_contents :
      (box : SignatureBox)
      → IsBox box
      → box_from_file_contents b (box_to_file_contents b box) ≡ ok box
  unfolding box_from_file_contents
  box_from_file_contents-box_to_file_contents box h =
      ap (parse_four_lines b) (lines_printed box h) ∙ parse_lines_printed box h

  parse_global_signature-IsArray :
      (l : Text) (g : Signature)
      → parse_global_signature b l ≡ ok g
      → IsArray signature_bytes g.bytes
  unfolding parse_global_signature decode_base64
  parse_global_signature-IsArray l g h = ground (arith, decode-IsByte l g.bytes)

  decode_base64-IsByte : (l : Text) (bs : Bytes) → decode_base64 b l ≡ ok bs → All IsByte bs
  unfolding decode_base64
  decode_base64-IsByte l bs h = ground (arith, decode-IsByte l bs)

  sig_line-IsSigStruct :
      (l : Text) (s : SigStruct) → (decode_base64 b l >>= sig_from_bytes) ≡ ok s → IsSigStruct s
  sig_line-IsSigStruct l s h =
      let (bs, d, r) = >>=-eq-ok (decode_base64 b l) sig_from_bytes h in
      (sig_to_bytes-sig_from_bytes bs s (decode_base64-IsByte l bs d) r).0

  parse_lines-IsBox :
      (l0 l1 l2 l3 : Text) (box : SignatureBox) → parse_lines b l0 l1 l2 l3 ≡ ok box → IsBox box
  unfolding parse_lines
  parse_lines-IsBox l0 l1 l2 l3 box h = ground (
    arith,
    sig_line-IsSigStruct l1 box.sig_struct,
    parse_global_signature-IsArray l3 box.global_signature,
  )

  -- Whatever file is accepted, the box that it is read as has arrays of the right sizes and
  -- comments that pass the checks.
  pub box_from_file_contents-IsBox :
      (contents : Text) (box : SignatureBox)
      → box_from_file_contents b contents ≡ ok box
      → IsBox box
  unfolding box_from_file_contents parse_four_lines
  box_from_file_contents-IsBox contents box h = four_lines (lines contents) h
    where
      four_lines : (ls : List Text) → parse_four_lines b ls ≡ ok box → IsBox box
      four_lines (l0 ∷ l1 ∷ l2 ∷ l3 ∷ []) e = parse_lines-IsBox l0 l1 l2 l3 box e
      four_lines _ e = cc

  -- Printing what was read and reading that gives the same box again.
  pub box_from_file_contents_again :
      (contents : Text) (box : SignatureBox)
      → box_from_file_contents b contents ≡ ok box
      → box_from_file_contents b (box_to_file_contents b box) ≡ ok box
  box_from_file_contents_again contents box h =
      box_from_file_contents-box_to_file_contents box (box_from_file_contents-IsBox contents box h)
