-- ===== src/Tests/Remembered.antt =====
-- A change of a password that fails.
use minisign_rs.Base.{◌≡◌, refl, true, false, none, some, codes, replicate}
use minisign_rs.Errors.{err, password_mismatch}
use minisign_rs.Ops.Files.{io_ok}
use minisign_rs.Keys.Seckey.{check_seckey_budget, new_unencrypted}
use minisign_rs.Cli.{Cli, change_action}
use minisign_rs.Main.Rekeying.{Typed, ChangeRun, handle_change}
use minisign_rs.Main.Rekeying.Remembers.{handle_change-keeps}
use minisign_rs.Tests.Models.{hex, toy}
use minisign_rs.Tests.Pairs.{empty}
use minisign_rs.Tests.Rekeyed.{system, loaded}
use minisign_rs.Tests.Stored.{Secrets, keyring, keyring-IsKeyring, after}
use minisign_rs.Tests.Asked.{file, prompted}
use minisign_rs.Tests.Verified.{cli}

abbrev change_cli : Cli
change_cli = record cli { action = some change_action; secret_key_file = some (codes "k") }

-- The two lines of the new password differ.
abbrev typed : Typed
typed = record {
  current = prompted;
  first = prompted;
  second = record { flushed = io_ok tt; typed = io_ok (codes "px") };
}

abbrev run : ChangeRun Secrets
run =
    handle_change file true keyring toy hex false system none none change_cli typed (replicate 32 9)
      empty after

mismatched : run.code ≡ err password_mismatch
unfolding handle_change check_seckey_budget new_unencrypted
mismatched = rw loaded refl

handle_change-keeps_example : run.credentials (codes "AB") ≡ after (codes "AB")
handle_change-keeps_example =
    handle_change-keeps file true keyring keyring-IsKeyring toy hex false system none none
      change_cli typed (replicate 32 9) empty after password_mismatch (codes "AB") refl mismatched
