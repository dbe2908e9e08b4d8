-- ===== src/Ops/Verify/Accepted.antt =====
-- What an accepted file has passed.
use minisign_rs.Base.{
  ◌≡◌, refl, sym, ap, ◌∙◌, Bool, true, false, not, ◌&&◌, Option, none, some, [], ◌∷◌, ◌++◌, arith,
  ltb, if◌then◌else◌, Bytes, list_eq_iff, Bool-cases, inl, inr,
}
use minisign_rs.Errors.{FilePath, ok, >>=-eq-ok, fail_if-ok}
use minisign_rs.Formats.{Base64}
use minisign_rs.Crypto.{
  Primitives, ArePrimitives, PublicKey, keynum_eq, to_key_id, verify, blake2b_512,
  blake2b_512_stream, chunk, failed, Reader,
}
use minisign_rs.Crypto.Streaming.{contents, blake2b_512_stream-contents}
use minisign_rs.Signature.{SigStruct, SignatureBox, verify_global_signature}
use minisign_rs.Keys.Pubkey.{PubkeyStruct}
use minisign_rs.Ops.Files.{
  Disk, OpenFile, io_ok, or_file_read, read_message_file, max_message_size_bytes,
}
use minisign_rs.Ops.Files.Bounded.{delivered, or_file_read-ok, read_message_file-delivered}
use minisign_rs.Ops.Verify.{
  VerifyOptions, VerifyResult, MessageSource, buffer, verify_result, load_public_key,
  load_signature, verify_buffered, verify_streamed, verify_legacy, verify_message_signature,
  verify_file, verify_file_with_key, default_signature_path,
}

delivered-contents :
    (reader : Reader) (m : Bytes) → contents reader ≡ ok m → delivered reader ≡ io_ok m
unfolding delivered
delivered-contents [] m h = ap io_ok cc
delivered-contents (chunk [] ∷ rest) m h = ap io_ok cc
delivered-contents (chunk (b ∷ bs) ∷ rest) m h =
    let (more, read, same) = >>=-eq-ok (contents rest) _ h in
    let joined : (b ∷ bs) ++ more ≡ m = cc in
    rw (delivered-contents rest more read) (ap io_ok joined)
delivered-contents (failed e ∷ rest) m h = cc

-- The bytes that a signature signs, for a message.
abbrev pub signed_data : Primitives → Bool → Bytes → Bytes
signed_data p prehashed m = if prehashed then blake2b_512 p m else m

-- The message is what the file delivers, the signature of it was verified, and it is given out
-- if asked for.
abbrev pub Verified :
    Primitives
    → Disk
    → PublicKey
    → SigStruct
    → FilePath
    → Bool
    → Option MessageSource
    → Bytes
    → Type 0
Verified p disk public_key s path capture out m =
    ((file : OpenFile) × (disk.open_file path ≡ io_ok file) × (delivered file.reader ≡ io_ok m))
    × (verify p public_key (signed_data p s.prehashed m) s.signature ≡ ok tt)
    × (out ≡ (if capture then some (buffer m) else none))

module _ (p : Primitives) (laws : ArePrimitives p) (b : Base64) (disk : Disk) where
  verify_buffered-ok :
      (k : PublicKey) (s : SigStruct) (path : FilePath) (out : Option MessageSource)
      → s.prehashed ≡ true
      → verify_buffered p b disk k s path ≡ ok out
      → (m : Bytes) × Verified p disk k s path true out m
  unfolding verify_buffered
  verify_buffered-ok k s path out mode h =
      let (size, sized, h1) = >>=-eq-ok (or_file_read path (disk.metadata_len path)) _ h in
      let (small, h2) = fail_if-ok (ltb max_message_size_bytes size) _ _ h1 in
      let (m, read, h3) = >>=-eq-ok (read_message_file disk path) _ h2 in
      let (u, verified, h4) = >>=-eq-ok (verify p k (blake2b_512 p m) s.signature) _ h3 in
      let (file, opened, got, short) = read_message_file-delivered disk path m read in
      (m, ((file, opened, got), rw mode verified, cc))

  verify_streamed-ok :
      (k : PublicKey) (s : SigStruct) (path : FilePath) (out : Option MessageSource)
      → s.prehashed ≡ true
      → verify_streamed p b disk k s path ≡ ok out
      → (m : Bytes) × Verified p disk k s path false out m
  unfolding verify_streamed
  verify_streamed-ok k s path out mode h =
      let (file, opened, h1) = >>=-eq-ok (or_file_read path (disk.open_file path)) _ h in
      let (hash, hashed, h2) = >>=-eq-ok (blake2b_512_stream p file.reader) _ h1 in
      let (u, verified, h3) = >>=-eq-ok (verify p k hash s.signature) _ h2 in
      let (m, read, same) =
        >>=-eq-ok (contents file.reader) _
          (sym (blake2b_512_stream-contents p laws file.reader) ∙ hashed) in
      let hash_of_m : blake2b_512 p m ≡ hash = cc in
      (
        m,
        (
          (
            file,
            or_file_read-ok path (disk.open_file path) file opened,
            delivered-contents file.reader m read,
          ),
          rw (mode, hash_of_m) verified,
          cc,
        ),
      )

  verify_legacy-ok :
      (k : PublicKey) (s : SigStruct) (path : FilePath) (capture : Bool)
      (out : Option MessageSource)
      → s.prehashed ≡ false
      → verify_legacy p b disk k s path capture ≡ ok out
      → (m : Bytes) × Verified p disk k s path capture out m
  unfolding verify_legacy
  verify_legacy-ok k s path capture out mode h =
      let (m, read, h1) = >>=-eq-ok (read_message_file disk path) _ h in
      let (u, verified, h2) = >>=-eq-ok (verify p k m s.signature) _ h1 in
      let (file, opened, got, short) = read_message_file-delivered disk path m read in
      (m, ((file, opened, got), rw mode verified, cc))

  -- The message signature was checked in full: if `verify_message_signature` succeeds, the key
  -- identifiers are equal, a legacy signature was not refused by the options, and the crate
  -- accepted the signature for the bytes that the message file delivered to its end (for their
  -- hash, if the signature is prehashed); and the captured output is exactly those bytes.
  pub verify_message_signature-ok :
      (k : PubkeyStruct) (box : SignatureBox) (path : FilePath) (force capture : Bool)
      (out : Option MessageSource)
      → verify_message_signature p b disk k box path force capture ≡ ok out
      → (k.keynum.bytes ≡ box.sig_struct.keynum.bytes)
        × (force ≡ true → box.sig_struct.prehashed ≡ true)
        × ((m : Bytes) × Verified p disk k.public_key box.sig_struct path capture out m)
  unfolding verify_message_signature keynum_eq
  verify_message_signature-ok k box path force capture out h =
      let s = box.sig_struct in
      let (matched, h1) = fail_if-ok (not (keynum_eq k.keynum s.keynum)) _ _ h in
      let (allowed, h2) = fail_if-ok (force && not s.prehashed) _ _ h1 in
      (
        (list_eq_iff k.keynum.bytes s.keynum.bytes).0 (ground arith),
        λ forced. ground arith,
        elim (Bool-cases s.prehashed) [
          | inl hashed ↦ elim (Bool-cases capture) [
            | inl captured ↦
                rw captured (verify_buffered-ok k.public_key s path out hashed (ground arith))
            | inr dropped ↦
                rw dropped (verify_streamed-ok k.public_key s path out hashed (ground arith))
          ]
          | inr legacy ↦ verify_legacy-ok k.public_key s path capture out legacy (ground arith)
        ],
      )

  -- What `verify` has established when it succeeds.
  abbrev pub Established :
      PubkeyStruct → SignatureBox → FilePath → Bool → Bool → VerifyResult → Type 0
  Established k box path force capture r =
      (k.keynum.bytes ≡ box.sig_struct.keynum.bytes)
      × (force ≡ true → box.sig_struct.prehashed ≡ true)
      × ((m : Bytes) × Verified p disk k.public_key box.sig_struct path capture r.message_output m)
      × (verify_global_signature p box k.public_key ≡ ok tt)
      × (r.trusted_comment ≡ box.trusted_comment)
      × (r.key_id ≡ to_key_id k.keynum)

  established :
      (k : PubkeyStruct) (box : SignatureBox) (path : FilePath) (force capture : Bool)
      (out : Option MessageSource) (r : VerifyResult)
      → verify_message_signature p b disk k box path force capture ≡ ok out
      → verify_global_signature p box k.public_key ≡ ok tt
      → verify_result k box out ≡ r
      → Established k box path force capture r
  unfolding verify_result
  established k box path force capture out r message global same =
      let (ids, legacy, verified) =
        verify_message_signature-ok k box path force capture out message in
      rw (← same) (ids, legacy, verified, global, refl, refl)

  -- No file is accepted without both signatures: if `verify` succeeds, then with the public key
  -- and the signature box that were loaded, the key identifiers are equal, a legacy signature was
  -- not refused by the options, the crate accepted the signature for the bytes that the message
  -- file delivered (for their hash, if prehashed) and the global signature over signature and
  -- trusted comment; the output, if asked for, is exactly those bytes, and the trusted comment
  -- that is reported is the one that was signed.
  pub verify_file-ok :
      (o : VerifyOptions) (r : VerifyResult)
      → verify_file p b disk o ≡ ok r
      → (k : PubkeyStruct) × (box : SignatureBox) × (load_public_key p b disk o.public_key ≡ ok k)
        × (load_signature p b disk o.signature_file ≡ ok box)
        × Established k box o.message_file o.force_prehashed o.output r
  unfolding verify_file
  verify_file-ok o r h =
      let (k, loaded, h1) = >>=-eq-ok (load_public_key p b disk o.public_key) _ h in
      let (box, parsed, h2) = >>=-eq-ok (load_signature p b disk o.signature_file) _ h1 in
      let (out, message, h3) =
        >>=-eq-ok
          (verify_message_signature p b disk k box o.message_file o.force_prehashed o.output) _
          h2 in
      let (u, global, h4) = >>=-eq-ok (verify_global_signature p box k.public_key) _ h3 in
      (
        k,
        box,
        loaded,
        parsed,
        established k box o.message_file o.force_prehashed o.output out r message global cc,
      )

  -- If `verify_file_with_key` accepts a file of a batch, then the key identifiers are equal, a
  -- legacy signature was not refused by the options, and both signatures of the box in the file
  -- named after it with `.minisig` were accepted under the key, the one over the bytes that the
  -- message file delivered; no output is given.
  pub verify_file_with_key-ok :
      (path : FilePath) (k : PubkeyStruct) (o : VerifyOptions) (r : VerifyResult)
      → verify_file_with_key p b disk path k o ≡ ok r
      → (box : SignatureBox) × (load_signature p b disk (default_signature_path path) ≡ ok box)
        × Established k box path o.force_prehashed false r
  unfolding verify_file_with_key
  verify_file_with_key-ok path k o r h =
      let (box, parsed, h1) =
        >>=-eq-ok (load_signature p b disk (default_signature_path path)) _ h in
      let (out, message, h2) =
        >>=-eq-ok (verify_message_signature p b disk k box path o.force_prehashed false) _ h1 in
      let (u, global, h3) = >>=-eq-ok (verify_global_signature p box k.public_key) _ h2 in
      let (ids, legacy, (m, (got, checked, silent))) =
        verify_message_signature-ok k box path o.force_prehashed false out message in
      let same : verify_result k box none ≡ r = cc in
      (
        box,
        parsed,
        established k box path o.force_prehashed false out r message global
            (ap (verify_result k box) silent ∙ same),
      )
