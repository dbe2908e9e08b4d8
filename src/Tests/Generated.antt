-- ===== src/Tests/Generated.antt =====
-- A key pair that is generated into an empty store.
use minisign_rs.Keys.Pubkey.{pubkey_to_file_contents}
use minisign_rs.Validation.{is_printable, validate_untrusted_comment, validate_key_comment}
use minisign_rs.Base.{
  text_len, replicate-IsArray, ◌≡◌, refl, arith, false, none, some, [], ◌∷◌, replicate, Bytes, Text,
  codes,
}
use minisign_rs.Errors.{ok}
use minisign_rs.Keys.Seckey.{seckey_to_file_contents, new_unencrypted}
use minisign_rs.Ops.Files.{io_ok}
use minisign_rs.Ops.Paths.{reject_output_alias, Directories, root_dir, normal}
use minisign_rs.Ops.Modes.{pubkey_comment, seckey_comment, seal_key, preserve, unprotected}
use minisign_rs.Ops.Generate.Pair.{write_keypair_files_create_new, PairFaults}
use minisign_rs.Ops.Generate.Make.{
  GenerateOptions, GenerateResult, Surroundings, Draw, generate_with_log_n, drawn_keynum,
  generate_result,
}
use minisign_rs.Ops.Generate.Make.Opens.{
  IsDraw, IsReliable, Stand, Matches, generate_with_log_n-Matches,
}
use minisign_rs.Tests.Models.{hex, hex-IsBase64, toy, toy-ArePrimitives, digest}
use minisign_rs.Tests.Pairs.{calm, empty}
use minisign_rs.Tests.Pairs.Paths.{paths, paths-AreDistinct}

abbrev no_faults : PairFaults
no_faults = record {
  secret_temp_faults = calm;
  public_temp_faults = calm;
  link_secret_fault = none;
  link_public_fault = none;
  move_secret_fault = none;
  move_public_fault = none;
  sync_secret_fault = none;
  sync_public_fault = none;
  backup_secret_fault = none;
  backup_public_fault = none;
  sync_secret_backup_fault = none;
  sync_public_backup_fault = none;
  restore_secret_fault = none;
  restore_public_fault = none;
  remove_secret_fault = none;
  remove_public_fault = none;
  remove_secret_tmp_fault = none;
  remove_public_tmp_fault = none;
  remove_secret_backup_fault = none;
  remove_public_backup_fault = none;
  remove_lock_fault = none;
}

-- Each path is an entry of the root.
abbrev pub flat : Directories
flat = record {
  absolute = λ path. io_ok (normal path ∷ root_dir ∷ []);
  canonicalize = λ path. io_ok (normal path ∷ root_dir ∷ []);
  canonicalize_place = λ place. io_ok place;
}

abbrev around : Surroundings
around = record {
  debug = false;
  directories = flat;
  parents = record { missing_parent = λ path. none; make_fault = λ path. none };
  pair_paths = paths;
  pair_faults = no_faults;
  meanwhile = λ s. s;
  lock = λ s. (ok tt, s);
}

abbrev options : GenerateOptions
options = record {
  secret_key_file = codes "k";
  public_key_file = codes "kp";
  comment = some (codes "c");
  policy = preserve;
  encryption = unprotected;
  force_weak_kdf = false;
}

abbrev draw : Draw toy
draw = record {
  signing_key = replicate 64 7;
  keynum_bytes = replicate 8 1;
  kdf_salt = replicate 32 9;
}

abbrev keypair_of : Bytes → Bytes
keypair_of k = k

draw-IsDraw : IsDraw toy keypair_of draw
draw-IsDraw = record {
  reads_back = refl;
  keypair_array = replicate-IsArray 64 7 (omega arith);
  keynum_array = replicate-IsArray 8 1 (omega arith);
  salt_array = replicate-IsArray 32 9 (omega arith);
}

around-IsReliable : IsReliable around options
around-IsReliable = record { distinct = paths-AreDistinct; can = (refl, refl); able = (refl, refl) }

abbrev result : GenerateResult
result =
    generate_result toy keypair_of hex options
      (new_unencrypted (record { bytes = replicate 8 1 }) (record { bytes = replicate 64 7 }))
      (record {
        keynum = record { bytes = replicate 8 1 };
        public_key = record { bytes = digest 32 [] };
      })

generated :
    (generate_with_log_n toy keypair_of hex around draw options none 10 empty).result ≡ ok result
unfolding generate_with_log_n validate_key_comment validate_untrusted_comment is_printable text_len
    reject_output_alias seal_key seckey_to_file_contents seckey_comment pubkey_to_file_contents
    pubkey_comment write_keypair_files_create_new
generated = refl

generate_with_log_n-Matches_example :
    (secret_text : Text) × (public_text : Text) × Stand options secret_text public_text
      (generate_with_log_n toy keypair_of hex around draw options none 10 empty).files
    × Matches toy toy-ArePrimitives keypair_of hex hex-IsBase64 none
        (record { bytes = replicate 64 7 })
        (drawn_keynum toy keypair_of draw)
        (record { bytes = digest 32 [] })
        secret_text
        public_text
generate_with_log_n-Matches_example =
    generate_with_log_n-Matches toy toy-ArePrimitives keypair_of hex hex-IsBase64 around draw
      options around-IsReliable draw-IsDraw none 10 empty result generated
