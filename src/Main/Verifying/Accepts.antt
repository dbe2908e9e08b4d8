-- ===== src/Main/Verifying/Accepts.antt =====
-- When the program succeeds with `-V`, of `handle_verify` of rs/src/main.rs.
use minisign_rs.Base.{ℕ, ◌≡◌, refl, Bool, false, List, [], ◌∷◌, All}
use minisign_rs.Errors.{FilePath, Result, ok, err, >>=-eq-ok}
use minisign_rs.Formats.{Base64}
use minisign_rs.Crypto.{Primitives, ArePrimitives}
use minisign_rs.Signature.{SignatureBox}
use minisign_rs.Keys.Pubkey.{PubkeyStruct}
use minisign_rs.Ops.Files.{Disk, IoResult}
use minisign_rs.Ops.Verify.{PublicKeySource, VerifyResult, load_public_key, load_signature}
use minisign_rs.Ops.Verify.Accepted.{Established, verify_file-ok, verify_file_with_key-ok}
use minisign_rs.Ops.Verify.Batch.{verify_multiple_files}
use minisign_rs.Ops.Verify.Batch.Summary.{Verifies, verify_multiple_files_iff}
use minisign_rs.Cli.{Cli, all_message_files, cli_default_signature_path}
use minisign_rs.Main.{or_default}
use minisign_rs.Main.Verifying.{
  verify_options, checked_source, verify_single, show_single, verify_several, several_allowed,
  verify_files, verify_from, handle_verify,
}

module _ (p : Primitives) (laws : ArePrimitives p) (b : Base64) (disk : Disk) where
  -- Both signatures of a file were accepted: those of the box that some path holds, over what
  -- the file delivered, with the demand of the flags on prehashing.
  abbrev pub IsVerified : PubkeyStruct → Cli → FilePath → Type 0
  IsVerified k cli file =
      (path : FilePath) × (box : SignatureBox) × (capture : Bool) × (r : VerifyResult)
      × (load_signature p b disk path ≡ ok box)
      × Established p laws b disk k box file cli.prehashed capture r

  -- The key of a source verifies every one of the files.
  abbrev pub AreVerified : PublicKeySource → Cli → List FilePath → Type 0
  AreVerified source cli files =
      (k : PubkeyStruct) × (load_public_key p b disk source ≡ ok k) × All (IsVerified k cli) files

  verify_single-AreVerified :
      (cli : Cli) (source : PublicKeySource) (file : FilePath) (r : VerifyResult)
      → verify_single p b disk cli source file ≡ ok r
      → AreVerified source cli (file ∷ [])
  unfolding verify_single
  verify_single-AreVerified cli source file r h =
      let (default_signature, named, h1) = >>=-eq-ok (cli_default_signature_path file) _ h in
      let path = or_default cli.signature_file default_signature in
      let (k, box, loaded, parsed, all) =
        verify_file-ok p laws b disk (verify_options cli source path file) r h1 in
      (k, loaded, ((path, box, cli.output, r, parsed, all), tt))

  each :
      (k : PubkeyStruct) (cli : Cli) (source : PublicKeySource) (files : List FilePath)
      → All (Verifies p b disk k (verify_options cli source [] [])) files
      → All (IsVerified k cli) files
  each k cli source [] h = tt
  each k cli source (file ∷ files) ((r, verified), rest) =
      let (box, parsed, all) =
        verify_file_with_key-ok p laws b disk file k (verify_options cli source [] []) r verified in
      ((_, box, false, r, parsed, all), each k cli source files rest)

  module _ (stdout : IoResult (Unit {0})) where
    verify_several-AreVerified :
        (cli : Cli) (source : PublicKeySource) (files : List FilePath) (allowed : Result (Unit {0}))
        (code : ℕ)
        → (verify_several p b disk stdout cli source files allowed).0 ≡ ok code
        → AreVerified source cli files
    unfolding verify_several
    verify_several-AreVerified cli source files (err e) code h = absurd cc
    verify_several-AreVerified cli source files (ok nothing) code h =
        let o = verify_options cli source [] [] in
        let (u, good, _) = >>=-eq-ok (verify_multiple_files p b disk files o).0 _ h in
        let (k, loaded, all) = (verify_multiple_files_iff p b disk files o).0 good in
        (k, loaded, each k cli source files all)

    single :
        (cli : Cli) (source : PublicKeySource) (file : FilePath) (r : Result VerifyResult)
        (code : ℕ)
        → verify_single p b disk cli source file ≡ r
        → (show_single p b disk stdout cli r).0 ≡ ok code
        → AreVerified source cli (file ∷ [])
    unfolding show_single
    single cli source file (err e) code same h = absurd cc
    single cli source file (ok r) code same h = verify_single-AreVerified cli source file r same

    verify_files-AreVerified :
        (cli : Cli) (source : PublicKeySource) (files : List FilePath) (code : ℕ)
        → (verify_files p b disk stdout cli source files).0 ≡ ok code
        → AreVerified source cli files
    unfolding verify_files
    verify_files-AreVerified cli source [] code h =
        verify_several-AreVerified cli source [] (several_allowed cli) code h
    verify_files-AreVerified cli source (file ∷ []) code h =
        single cli source file (verify_single p b disk cli source file) code refl h
    verify_files-AreVerified cli source (file ∷ next ∷ files) code h =
        verify_several-AreVerified cli source (file ∷ next ∷ files) (several_allowed cli) code h

    verify_from-AreVerified :
        (cli : Cli) (exists : Bool) (from : Result PublicKeySource) (code : ℕ)
        → (verify_from p b disk stdout cli exists from).0 ≡ ok code
        → (source : PublicKeySource) × (from ≡ ok source)
          × AreVerified source cli (all_message_files cli)
    unfolding verify_from
    verify_from-AreVerified cli exists (err e) code h = absurd cc
    verify_from-AreVerified cli exists (ok source) code h =
        (source, refl, verify_files-AreVerified cli source (all_message_files cli) code h)

    -- If `-V` ends with success, then the flags named a public key or the one of the current
    -- directory exists, and under that key both signatures were accepted for every message file
    -- that the arguments name, each over exactly what the file delivered, and prehashed if the
    -- flags demand it.
    pub handle_verify-AreVerified :
        (cli : Cli) (exists : Bool) (code : ℕ)
        → (handle_verify p b disk stdout cli exists).0 ≡ ok code
        → (source : PublicKeySource) × (checked_source cli exists ≡ ok source)
          × AreVerified source cli (all_message_files cli)
    unfolding handle_verify
    handle_verify-AreVerified cli exists code h =
        verify_from-AreVerified cli exists (checked_source cli exists) code h
