-- ===== src/Signature/Verify.antt =====
-- The global signature: what `with_global_signature` signs is what `verify_global_signature`
-- checks.
use minisign_rs.Base.{◌≡◌, some, arith, Bytes, Text}
use minisign_rs.Errors.{ok, ◌>>=◌, ◌>>◌}
use minisign_rs.Crypto.{Primitives, SecretKey, sign, verify}
use minisign_rs.Signature.{
  SigStruct, SignatureBox, new_box, validate_comments, with_global_signature,
  verify_global_signature, global_signature_data,
}

module _ (p : Primitives) where
  open p use {SigningKey, from_keypair_bytes, sign_message, verifying_key}

  -- What `ed25519_dalek` documents: a signature verifies under the key that belongs to it.
  abbrev pub VerifiesOwn : Type 0
  VerifiesOwn =
      (k : SigningKey) (m : Bytes)
      → verify p (record { bytes = verifying_key k }) m (record { bytes = sign_message k m })
        ≡ ok tt

  -- `with_global_signature` is: check the comments, sign the data, build the box.
  pub with_global_signature-new_box :
      (u : Text) (s : SigStruct) (t : Text) (sk : SecretKey)
      → with_global_signature p u s t sk
        ≡ (validate_comments u t >> (sign p sk (global_signature_data s t) >>= new_box u s t))
  unfolding with_global_signature new_box
  with_global_signature-new_box u s t sk = ground arith

  -- A box from `with_global_signature` passes `verify_global_signature` under the public key of
  -- the signing key, if the crate's signatures verify under their own key.
  pub verify_global_signature-with_global_signature :
      (own : VerifiesOwn) (u : Text) (s : SigStruct) (t : Text) (sk : SecretKey) (k : SigningKey)
      (box : SignatureBox)
      → from_keypair_bytes sk.bytes ≡ some k
      → with_global_signature p u s t sk ≡ ok box
      → verify_global_signature p box (record { bytes = verifying_key k }) ≡ ok tt
  unfolding with_global_signature verify_global_signature sign
  verify_global_signature-with_global_signature own u s t sk k box hk h =
      ground (arith, own k (global_signature_data s t))
