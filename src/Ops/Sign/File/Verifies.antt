-- ===== src/Ops/Sign/File/Verifies.antt =====
-- What a signing of rs/src/ops/sign.rs leaves under the path of the signature.
use minisign_rs.Base.{◌≡◌, ◌≢◌, refl, Bool, true, false, none, some, [], ◌∷◌, All, Text, utf8}
use minisign_rs.Errors.{FilePath, Result, ok, err, >>=-eq-ok}
use minisign_rs.Formats.{Base64, IsBase64}
use minisign_rs.Crypto.{Primitives, ArePrimitives, SecretKey, PublicKey, KeyNum, IsKeyNum}
use minisign_rs.Signature.{
  SignatureBox, box_to_file_contents, box_from_file_contents, verify_global_signature,
}
use minisign_rs.Signature.File.{box_from_file_contents-box_to_file_contents}
use minisign_rs.Ops.Writing.{Store, write_signature_file, default_permissions}
use minisign_rs.Ops.Writing.Stands.{write_file-Written}
use minisign_rs.Ops.Paths.{Place, reject_output_alias, resolve_destination}
use minisign_rs.Ops.Paths.Distinct.{LeadsElsewhere, reject_output_alias-ok}
use minisign_rs.Ops.Verify.{verify_message_signature}
use minisign_rs.Ops.Sign.{signature_path, derive_public_key}
use minisign_rs.Ops.Sign.Created.{verify_message_signature-create_signature}
use minisign_rs.Ops.Sign.File.{
  SignOptions, SignResult, System, make_box, write_box, sign_file_with_key,
}

module _ (p : Primitives) (laws : ArePrimitives p) (b : Base64) (codec : IsBase64 b)
    (system : System) where
  open system use {disk, directories, clock, faults_at, symlink_at, tmp_of}

  -- A file stands under a path, and its text is read as a box that the verification accepts.
  pub record IsSigned (path message_file : FilePath) (keynum : KeyNum) (sk : SecretKey)
      (force : Bool) (files : Store) : Type 0 where
    pub text : Text
    pub box : SignatureBox
    pub pk : PublicKey
    pub stands : files path ≡ some (record { contents = utf8 text; mode = default_permissions })
    pub reads : box_from_file_contents b text ≡ ok box
    pub derived : derive_public_key p sk ≡ ok pk
    pub accepts :
        verify_message_signature p b disk
          (record { keynum = keynum; public_key = pk })
          box
          message_file
          force
          false
        ≡ ok none
    pub accepts_comment : verify_global_signature p box pk ≡ ok tt

  write_signature_file-Written :
      (path : FilePath) (text : Text) (force : Bool) (store : Store)
      → path ≢ tmp_of path
      → (write_signature_file
          (faults_at path)
          (symlink_at path)
          path
          (tmp_of path)
          text
          force
          store).0
        ≡ ok tt
      → (write_signature_file
            (faults_at path)
            (symlink_at path)
            path
            (tmp_of path)
            text
            force
            store).1
          path
        ≡ some (record { contents = utf8 text; mode = default_permissions })
  unfolding write_signature_file
  write_signature_file-Written path text force store distinct h =
      write_file-Written (faults_at path) path (tmp_of path) store distinct (symlink_at path)
        (utf8 text) force h

  write_box-ok :
      (path : FilePath) (keynum : KeyNum) (options : SignOptions) (made : Result SignatureBox)
      (store : Store) (r : SignResult)
      → path ≢ tmp_of path
      → (write_box p b system path keynum options made store).0 ≡ ok r
      → (box : SignatureBox) × (made ≡ ok box)
        × ((write_box p b system path keynum options made store).1 path
            ≡ some (record {
              contents = utf8 (box_to_file_contents b box);
              mode = default_permissions;
            }))
  unfolding write_box
  write_box-ok path keynum options (err e) store r distinct h = cc
  write_box-ok path keynum options (ok box) store r distinct h =
      let text = box_to_file_contents b box in
      let x =
        write_signature_file (faults_at path) (symlink_at path) path (tmp_of path) text
          options.force store in
      let (u, wrote, h1) = >>=-eq-ok x.0 _ h in
      (box, refl, write_signature_file-Written path text options.force store distinct wrote)

  -- A signing that succeeds leaves, under the path that the options name or the default one, the
  -- text of a signature: it is read back as a box that the verification accepts for the message
  -- file, with the global signature, under the public key that belongs to the secret key; and that
  -- path leads elsewhere than the message and the secret key file. The key number has its size,
  -- the temporary file has another path, and a hash is only demanded where it was asked for.
  pub sign_file_with_key-IsSigned :
      (message_file : FilePath) (sk : SecretKey) (keynum : KeyNum) (options : SignOptions)
      (force : Bool) (store : Store) (r : SignResult)
      → IsKeyNum keynum
      → (force ≡ true → options.prehashed ≡ true)
      → signature_path message_file options.signature_file
        ≢ tmp_of (signature_path message_file options.signature_file)
      → (sign_file_with_key p b system message_file sk keynum options store).0 ≡ ok r
      → IsSigned
          (signature_path message_file options.signature_file)
          message_file
          keynum
          sk
          force
          (sign_file_with_key p b system message_file sk keynum options store).1
        × (destination : Place) × (resolve_destination directories
              (signature_path message_file options.signature_file)
            ≡ ok destination)
        × All (LeadsElsewhere directories destination) (message_file ∷ options.secret_key_file ∷ [])
  unfolding sign_file_with_key make_box
  sign_file_with_key-IsSigned message_file sk keynum options force store r hk allowed distinct h =
      let path = signature_path message_file options.signature_file in
      let (box, made, stands) =
        write_box-ok path keynum options (make_box p b system message_file path sk keynum options)
          store r distinct h in
      let (u, apart, created) =
        >>=-eq-ok
          (reject_output_alias directories path (message_file ∷ options.secret_key_file ∷ [])) _
          made in
      let (pk, derived, accepts, global, good) =
        verify_message_signature-create_signature p laws b disk clock sk keynum message_file
          options.prehashed force options.trusted_comment options.untrusted_comment box hk allowed
          created in
      let elsewhere =
        reject_output_alias-ok directories path (message_file ∷ options.secret_key_file ∷ [])
          apart in
      (
        record {
          text = box_to_file_contents b box;
          box = box;
          pk = pk;
          stands = stands;
          reads = box_from_file_contents-box_to_file_contents b codec box good;
          derived = derived;
          accepts = accepts;
          accepts_comment = global;
        },
        elsewhere.0,
        elsewhere.1,
        elsewhere.2,
      )
