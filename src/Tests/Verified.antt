-- ===== src/Tests/Verified.antt =====
-- A verification from the flags on.
use minisign_rs.Base.{◌≡◌, refl, true, false, none, some, []}
use minisign_rs.Errors.{ok}
use minisign_rs.Keys.Pubkey.{pubkey_to_bytes}
use minisign_rs.Ops.Files.{IoResult, io_ok}
use minisign_rs.Ops.Verify.{PublicKeySource, verify_result}
use minisign_rs.Cli.{Cli, verify_action, all_message_files, cli_default_signature_path}
use minisign_rs.Main.Verifying.{checked_source, verify_single, handle_verify}
use minisign_rs.Main.Verifying.Accepts.{AreVerified, handle_verify-AreVerified}
use minisign_rs.Tests.Models.{hex, hex_encode, toy, toy-ArePrimitives}
use minisign_rs.Tests.Operations.{message_path, pubkey, disk, options, result, file_verified}

abbrev pub cli : Cli
cli = record {
  action = some verify_action;
  force = false;
  no_decrypt = false;
  prehashed = false;
  legacy = false;
  output = true;
  quiet = true;
  pretty_quiet = false;
  no_password = false;
  allow_kdf_fallback = false;
  save_password = false;
  forget_password = false;
  message_file = some message_path;
  extra_files = [];
  public_key_file = none;
  public_key_base64 = some (hex_encode (pubkey_to_bytes pubkey));
  secret_key_file = none;
  trusted_comment = none;
  untrusted_comment = none;
  signature_file = none;
  password_file = none;
  new_password_file = none;
  force_weak_kdf = false;
}

abbrev stdout : IoResult (Unit {0})
stdout = io_ok tt

single_verified : verify_single toy hex disk cli options.public_key message_path ≡ ok result
unfolding verify_single cli_default_signature_path
single_verified = file_verified

verified : (handle_verify toy hex disk stdout cli false).0 ≡ ok 0
unfolding handle_verify all_message_files verify_result
verified = rw single_verified refl

handle_verify-AreVerified_example :
    (source : PublicKeySource) × (checked_source cli false ≡ ok source)
    × AreVerified toy toy-ArePrimitives hex disk source cli (all_message_files cli)
handle_verify-AreVerified_example =
    handle_verify-AreVerified toy toy-ArePrimitives hex disk stdout cli false 0 verified
