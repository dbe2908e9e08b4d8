-- ===== src/Ops/Recreate/Writes.antt =====
-- The public key file that rs/src/ops/recreate.rs writes is the one that belongs to the secret key.
use minisign_rs.Base.{
  ◌≡◌, ◌≢◌, refl, ap, ◌∙◌, inl, inr, Option, some, [], ◌∷◌, Bytes, Text, IsArray, utf8,
  Option-cases, arith,
}
use minisign_rs.Errors.{Result, ok, err, >>=-eq-ok}
use minisign_rs.Formats.{Base64, IsBase64}
use minisign_rs.Crypto.{
  KeyNum, IsKeyNum, SecretKey, PublicKey, public_key_bytes, Primitives, ArePrimitives,
}
use minisign_rs.Keys.Pubkey.{PubkeyStruct, pubkey_to_file_contents, pubkey_from_file_contents}
use minisign_rs.Keys.Pubkey.File.{pubkey_from_file_contents-pubkey_to_file_contents}
use minisign_rs.Keys.Seckey.{SeckeyStruct}
use minisign_rs.Keys.Sealing.{extract_key}
use minisign_rs.Ops.Writing.{Store, write_public_key_file, default_permissions}
use minisign_rs.Ops.Writing.Stands.{write_file-Written}
use minisign_rs.Ops.Paths.{reject_output_alias}
use minisign_rs.Ops.Modes.{pubkey_comment}
use minisign_rs.Ops.Sign.{derive_public_key}
use minisign_rs.Ops.Sign.File.{System}
use minisign_rs.Ops.Recreate.{
  RecreateOptions, RecreateResult, check_comment, extract_public_key_from_secret, recreated,
  write_recreated, recreate_with_key,
}

module _ (p : Primitives) (laws : ArePrimitives p) (b : Base64) (codec : IsBase64 b)
    (system : System) where
  open system use {directories, faults_at, symlink_at, tmp_of}

  -- The signing of files and the recreation derive the same key.
  derived_too :
      (sk : SecretKey) (pk : PublicKey)
      → extract_public_key_from_secret p b system sk ≡ ok pk
      → (derive_public_key p sk ≡ ok pk) × IsArray public_key_bytes pk.bytes
  unfolding extract_public_key_from_secret derive_public_key
  derived_too sk pk h = elim (Option-cases (p.from_keypair_bytes sk.bytes)) [
    | inl malformed ↦ absurd (ground arith)
    | inr (k, found) ↦ ground (arith, laws.verifying_key-IsArray k)
  ]

  write_recreated-ok :
      (options : RecreateOptions) (made : Result (PubkeyStruct × Text)) (store : Store)
      (r : RecreateResult)
      → options.public_key_file ≢ tmp_of options.public_key_file
      → (write_recreated p b system options made store).0 ≡ ok r
      → (pubkey : PubkeyStruct) × (text : Text) × (made ≡ ok (pubkey, text))
        × ((write_recreated p b system options made store).1 options.public_key_file
            ≡ some (record { contents = utf8 text; mode = default_permissions }))
  unfolding write_recreated write_public_key_file
  write_recreated-ok options (err e) store r distinct h = cc
  write_recreated-ok options (ok (pubkey, text)) store r distinct h =
      let path = options.public_key_file in
      let x =
        write_public_key_file (faults_at path) (symlink_at path) path (tmp_of path) text
          options.force store in
      let (u, wrote, h1) = >>=-eq-ok x.0 _ h in
      (
        pubkey,
        text,
        refl,
        write_file-Written (faults_at path) path (tmp_of path) store distinct (symlink_at path)
            (utf8 text) options.force wrote,
      )

  recreated-ok :
      (seckey : SeckeyStruct) (options : RecreateOptions) (password : Option Bytes) (sk : SecretKey)
      (keynum : KeyNum) (pubkey : PubkeyStruct) (text : Text)
      → extract_key p seckey password ≡ ok (sk, keynum)
      → recreated p b system seckey options password ≡ ok (pubkey, text)
      → (pk : PublicKey) × (extract_public_key_from_secret p b system sk ≡ ok pk)
        × (pubkey_to_file_contents b
              (record { keynum = keynum; public_key = pk })
              (pubkey_comment keynum options.comment)
            ≡ ok text)
  unfolding recreated
  recreated-ok seckey options password sk keynum pubkey text opened h =
      let (u, checked, h1) = >>=-eq-ok (check_comment options.comment) _ h in
      let (v, apart, h2) =
        >>=-eq-ok
          (reject_output_alias directories options.public_key_file (options.secret_key_file ∷ [])) _
          h1 in
      let h3 = (rw opened at h2) in
      let (pk, derived, h4) = >>=-eq-ok (extract_public_key_from_secret p b system sk) _ h3 in
      let (text1, printed, h5) =
        >>=-eq-ok
          (pubkey_to_file_contents b (record { keynum = keynum; public_key = pk })
            (pubkey_comment keynum options.comment))
          _ h4 in
      let same : text1 ≡ text = cc in (pk, derived, printed ∙ ap ok same)

  -- A recreation that succeeds, with or without `force`, leaves under the path of the public key a
  -- file that is read back as the key number of the secret key and the public key that belongs to
  -- it, which is also the one that signatures are checked under. The key number has its size, and
  -- the temporary file has another path.
  pub recreate_with_key-writes :
      (seckey : SeckeyStruct) (options : RecreateOptions) (password : Option Bytes) (store : Store)
      (sk : SecretKey) (keynum : KeyNum) (r : RecreateResult)
      → IsKeyNum keynum
      → options.public_key_file ≢ tmp_of options.public_key_file
      → extract_key p seckey password ≡ ok (sk, keynum)
      → (recreate_with_key p b system seckey options password store).0 ≡ ok r
      → (text : Text) × (pk : PublicKey) × ((recreate_with_key p b system seckey options password
              store).1
            options.public_key_file
          ≡ some (record { contents = utf8 text; mode = default_permissions }))
        × (pubkey_from_file_contents b text ≡ ok (record { keynum = keynum; public_key = pk }))
        × (derive_public_key p sk ≡ ok pk)
  unfolding recreate_with_key
  recreate_with_key-writes seckey options password store sk keynum r hk distinct opened h =
      let (pubkey, text, made, stands) =
        write_recreated-ok options (recreated p b system seckey options password) store r distinct
          h in
      let (pk, derived, printed) =
        recreated-ok seckey options password sk keynum pubkey text opened made in
      let (same, sizes) = derived_too sk pk derived in
      (
        text,
        pk,
        stands,
        (pubkey_from_file_contents-pubkey_to_file_contents b codec
            (record { keynum = keynum; public_key = pk }) (pubkey_comment keynum options.comment)
            text (hk, sizes) printed).0,
        same,
      )
