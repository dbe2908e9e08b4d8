-- ===== src/Ops/Sign/Created.antt =====
-- What `create_signature` makes is accepted by the verification.
use minisign_rs.Base.{
  ℕ, ◌-◌, ◌≡◌, refl, Bool, true, false, Option, none, some, arith, Bytes, Text, IsArray,
  list_eq_refl, codes, Option-cases, inl, inr,
}
use minisign_rs.Errors.{
  FilePath, Error, Result, ok, err, map_err, >>=-eq-ok, other, message_self_verification_failed,
  global_self_verification_failed,
}
use minisign_rs.Formats.{Base64}
use minisign_rs.Crypto.{
  Primitives, ArePrimitives, SecretKey, PublicKey, Signature, KeyNum, IsKeyNum, signature_bytes,
  keynum_eq, sign, verify,
}
use minisign_rs.Validation.{
  validate_comment_with_length, comment_max_bytes, comment_prefix_size, trusted_comment_max_bytes,
  trusted_comment_prefix_size,
}
use minisign_rs.Signature.{
  SigStruct, SignatureBox, new_box, global_signature_data, verify_global_signature,
  validate_comments,
}
use minisign_rs.Signature.File.{IsBox, new_box-IsBox}
use minisign_rs.Ops.Files.{Disk, or_file_read}
use minisign_rs.Ops.Verify.{verify_message_signature, verify_streamed, verify_legacy}
use minisign_rs.Ops.Sign.{
  derive_public_key, data_to_sign, sign_and_check, create_signature, trusted_or_default,
  untrusted_or_default,
}

map_err-ok {ℓ} :
    {A : Type ℓ} (f : Error → Error) (r : Result A) (a : A) → map_err f r ≡ ok a → r ≡ ok a
map_err-ok f (ok x) a h = h
map_err-ok f (err e) a h = cc

module _ (p : Primitives) (laws : ArePrimitives p) where
  open p use {SigningKey, from_keypair_bytes, verifying_key, sign_message}

  sign-IsArray :
      (sk : SecretKey) (m : Bytes) (s : Signature)
      → sign p sk m ≡ ok s
      → IsArray signature_bytes s.bytes
  unfolding sign
  sign-IsArray sk m s h = elim (Option-cases (from_keypair_bytes sk.bytes)) [
    | inl malformed ↦ absurd (ground arith)
    | inr (k, found) ↦ ground (arith, laws.sign_message-IsArray k m)
  ]

  -- Both signatures of a box are accepted under a key.
  abbrev pub Signs : PublicKey → KeyNum → Bool → Bytes → SignatureBox → Type 0
  Signs pk keynum prehashed message box =
      (box.sig_struct.keynum ≡ keynum)
      × (box.sig_struct.prehashed ≡ prehashed)
      × (verify p pk message box.sig_struct.signature ≡ ok tt)
      × (verify_global_signature p box pk ≡ ok tt)
      × IsBox box

  new_box-Signs :
      (pk : PublicKey) (message : Bytes) (u : Text) (s : SigStruct) (t : Text) (g : Signature)
      (box : SignatureBox)
      → IsBox box
      → verify p pk message s.signature ≡ ok tt
      → verify p pk (global_signature_data s t) g ≡ ok tt
      → new_box u s t g ≡ ok box
      → Signs pk s.keynum s.prehashed message box
  unfolding new_box verify_global_signature
  new_box-Signs pk message u s t g box good c c' h =
      let (x, valid, made) = >>=-eq-ok (validate_comments u t) _ h in
      let same : record {
        untrusted_comment = u;
        sig_struct = s;
        trusted_comment = t;
        global_signature = g;
      }
          ≡ box =
        cc in
      rw (← same) (refl, refl, c, c', rw same good)

  sign_and_check-ok :
      (sk : SecretKey) (keynum : KeyNum) (prehashed : Bool) (t u : Text) (message : Bytes)
      (box : SignatureBox)
      → IsKeyNum keynum
      → sign_and_check p sk keynum prehashed t u message ≡ ok box
      → (pk : PublicKey) × (derive_public_key p sk ≡ ok pk) × Signs pk keynum prehashed message box
  unfolding sign_and_check verify_global_signature
  sign_and_check-ok sk keynum prehashed t u message box hk h =
      let (g, signed, h1) = >>=-eq-ok (sign p sk message) _ h in
      let s : SigStruct = record { prehashed = prehashed; keynum = keynum; signature = g } in
      let (gg, global, h2) = >>=-eq-ok (sign p sk (global_signature_data s t)) _ h1 in
      let (pk, derived, h3) = >>=-eq-ok (derive_public_key p sk) _ h2 in
      let (x, c1, h4) =
        >>=-eq-ok (map_err (λ e. other message_self_verification_failed) (verify p pk message g)) _
          h3 in
      let (y, c2, h5) =
        >>=-eq-ok
          (map_err (λ e. other global_self_verification_failed)
            (verify p pk (global_signature_data s t) gg))
          _ h4 in
      let checked = map_err-ok _ (verify p pk message g) tt c1 in
      let checked' = map_err-ok _ (verify p pk (global_signature_data s t) gg) tt c2 in
      let good =
        new_box-IsBox u s t gg box (hk, sign-IsArray sk message g signed)
          (sign-IsArray sk (global_signature_data s t) gg global) h5 in
      (pk, derived, new_box-Signs pk message u s t gg box good checked checked' h5)

  module _ (b : Base64) (disk : Disk) where
    verify_streamed-data_to_sign :
        (k : PublicKey) (s : SigStruct) (path : FilePath) (m : Bytes)
        → data_to_sign p disk path true ≡ ok m
        → verify p k m s.signature ≡ ok tt
        → verify_streamed p b disk k s path ≡ ok none
    unfolding data_to_sign verify_streamed
    verify_streamed-data_to_sign k s path m h verified =
        let (file, opened, hashed) = >>=-eq-ok (or_file_read path (disk.open_file path)) _ h in
        rw (opened, hashed, verified) refl

    verify_legacy-data_to_sign :
        (k : PublicKey) (s : SigStruct) (path : FilePath) (m : Bytes)
        → data_to_sign p disk path false ≡ ok m
        → verify p k m s.signature ≡ ok tt
        → verify_legacy p b disk k s path false ≡ ok none
    unfolding data_to_sign verify_legacy
    verify_legacy-data_to_sign k s path m h verified = rw (h, verified) refl

    verify_message_signature-Signs :
        (pk : PublicKey) (keynum : KeyNum) (path : FilePath) (prehashed force : Bool) (m : Bytes)
        (box : SignatureBox)
        → (force ≡ true → prehashed ≡ true)
        → data_to_sign p disk path prehashed ≡ ok m
        → Signs pk keynum prehashed m box
        → verify_message_signature p b disk
            (record { keynum = keynum; public_key = pk })
            box
            path
            force
            false
          ≡ ok none
    unfolding verify_message_signature keynum_eq
    verify_message_signature-Signs pk keynum path true true m box allowed h
          (ids, mode, verified, global, good) =
        rw (ids, mode, list_eq_refl keynum.bytes)
          (verify_streamed-data_to_sign pk box.sig_struct path m h verified)
    verify_message_signature-Signs pk keynum path true false m box allowed h
          (ids, mode, verified, global, good) =
        rw (ids, mode, list_eq_refl keynum.bytes)
          (verify_streamed-data_to_sign pk box.sig_struct path m h verified)
    verify_message_signature-Signs pk keynum path false false m box allowed h
          (ids, mode, verified, global, good) =
        rw (ids, mode, list_eq_refl keynum.bytes)
          (verify_legacy-data_to_sign pk box.sig_struct path m h verified)
    verify_message_signature-Signs pk keynum path false true m box allowed h
          (ids, mode, verified, global, good) =
        absurd (ground (arith, allowed refl))

    -- What is signed verifies: if `create_signature` makes a box for a message file, then
    -- `verify_message_signature` accepts the box for that file, and `verify_global_signature`
    -- accepts it too, under the key pair's public key and key identifier, where the options do not
    -- demand a hash that was not asked for; and the box has arrays of the right sizes and comments
    -- that pass the checks. Nothing but the sizes of its outputs is assumed of the signature
    -- scheme: the code checks its own signatures.
    pub verify_message_signature-create_signature :
        (clock : Option ℕ) (sk : SecretKey) (keynum : KeyNum) (path : FilePath)
        (prehashed force : Bool) (trusted untrusted : Option Text) (box : SignatureBox)
        → IsKeyNum keynum
        → (force ≡ true → prehashed ≡ true)
        → create_signature p disk clock sk keynum path prehashed trusted untrusted ≡ ok box
        → (pk : PublicKey) × (derive_public_key p sk ≡ ok pk)
          × (verify_message_signature p b disk
                (record { keynum = keynum; public_key = pk })
                box
                path
                force
                false
              ≡ ok none)
          × (verify_global_signature p box pk ≡ ok tt)
          × IsBox box
    unfolding create_signature
    verify_message_signature-create_signature clock sk keynum path prehashed force trusted untrusted
          box hk allowed h =
        let (t, chosen, h1) = >>=-eq-ok (trusted_or_default clock path prehashed trusted) _ h in
        let u = untrusted_or_default untrusted in
        let (x, c1, h2) =
          >>=-eq-ok
            (validate_comment_with_length u (some (comment_max_bytes - comment_prefix_size))
              (codes "untrusted"))
            _ h1 in
        let (y, c2, h3) =
          >>=-eq-ok
            (validate_comment_with_length t
              (some (trusted_comment_max_bytes - trusted_comment_prefix_size)) (codes "trusted"))
            _ h2 in
        let (m, read, h4) = >>=-eq-ok (data_to_sign p disk path prehashed) _ h3 in
        let (pk, derived, signs) = sign_and_check-ok sk keynum prehashed t u m box hk h4 in
        let (ids, mode, verified, global, good) = signs in
        (
          pk,
          derived,
          verify_message_signature-Signs pk keynum path prehashed force m box allowed read signs,
          global,
          good,
        )
