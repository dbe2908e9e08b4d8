-- ===== src/Tests/Pairs.antt =====
-- Writing a key pair into a small store, and waiting for its lock.
pub mod Paths
use minisign_rs.Base.{
  ℕ, zero, suc, ◌+◌, ◌*◌, ◌≤◌, ◌≡◌, refl, arith, Option, none, some, [], ◌∷◌, if◌then◌else◌, Bytes,
  codes, list_eq, utf8, ◌==◌,
}
use minisign_rs.Errors.{FilePath, other_kind, already_exists, ok}
use minisign_rs.Ops.Files.{io_ok}
use minisign_rs.Ops.Writing.{
  Entry, Store, Faults, set_entry, create_new, default_permissions, secret_key_file_permissions,
}
use minisign_rs.Ops.Generate.Pair.{PairPaths, PairFaults, Run, write_keypair_files_with_overwrite}
use minisign_rs.Ops.Generate.Steps.{PairDone, temp_entry}
use minisign_rs.Ops.Generate.Overwritten.{write_keypair_files_with_overwrite-PairDone}
use minisign_rs.Ops.Generate.Lock.{
  Round, Turn, done, removed_stale, slept, turn, opened, waiting, lock_is_stale,
  acquire_force_overwrite_lock,
}
use minisign_rs.Ops.Generate.Lock.Waits.{
  removals, IsClock, IsTaken, acquire_force_overwrite_lock-ends,
  acquire_force_overwrite_lock-IsTaken,
}
use Paths.{paths, paths-AreDistinct}

abbrev pub calm : Faults
calm = record {
  create_fault = none;
  chmod_fault = none;
  sync_fault = none;
  move_fault = none;
  remove_fault = none;
  directory_fault = none;
  write_fault = none;
}

-- The secret file cannot be moved into place, nor the secret temporary file removed.
abbrev stuck : PairFaults
stuck = record {
  secret_temp_faults = calm;
  public_temp_faults = calm;
  link_secret_fault = none;
  link_public_fault = some other_kind;
  move_secret_fault = some other_kind;
  move_public_fault = none;
  sync_secret_fault = none;
  sync_public_fault = none;
  backup_secret_fault = none;
  backup_public_fault = none;
  sync_secret_backup_fault = none;
  sync_public_backup_fault = none;
  restore_secret_fault = none;
  restore_public_fault = none;
  remove_secret_fault = none;
  remove_public_fault = none;
  remove_secret_tmp_fault = some other_kind;
  remove_public_tmp_fault = none;
  remove_secret_backup_fault = none;
  remove_public_backup_fault = none;
  remove_lock_fault = none;
}

abbrev old_key : Entry
old_key = record { contents = 1 ∷ 2 ∷ []; mode = 384 }

abbrev store : Store
store path = if list_eq path paths.secret_path then some old_key else none

abbrev pub empty : Store
empty path = none

write_keypair_files_with_overwrite-PairDone_example :
    PairDone paths store
      (temp_entry (utf8 (codes "s")) (some secret_key_file_permissions))
      (temp_entry (utf8 (codes "p")) none)
      (write_keypair_files_with_overwrite paths stuck (ok tt, store) (codes "s") (codes "p"))
write_keypair_files_with_overwrite-PairDone_example =
    write_keypair_files_with_overwrite-PairDone paths stuck paths-AreDistinct (refl, refl)
      (refl, refl) (ok tt, store) (codes "s") (codes "p")

abbrev lock_path : FilePath
lock_path = codes "lock"

abbrev locked : Store
locked path = some old_key

-- The lock is held, and each round takes ten milliseconds.
abbrev busy : ℕ → Round
busy i = record {
  found = locked;
  open_fault = none;
  removal_fault = none;
  modified = io_ok 0;
  now = 0;
  elapsed = 10 * i;
}

busy-IsClock : IsClock lock_path busy
busy-IsClock = record { monotone = λ i. omega arith; sleeps = λ i e. omega arith }

none_removed : (n i : ℕ) → removals lock_path busy n i ≡ 0
unfolding removals turn opened create_new waiting lock_is_stale
none_removed zero i = refl
none_removed (suc n) i = ground (arith, none_removed n (suc i))

acquire_force_overwrite_lock-ends_example :
    (x : Run) × (acquire_force_overwrite_lock lock_path 3001 busy 0 ≡ some x)
acquire_force_overwrite_lock-ends_example =
    acquire_force_overwrite_lock-ends lock_path busy busy-IsClock 0 3001 (omega arith)
      (omega (arith, none_removed 3001 0))

-- A round that finds no lock.
abbrev free : ℕ → Round
free i = record (busy i) { found = empty }

abbrev with_lock : Store
with_lock = set_entry lock_path (some (record { contents = []; mode = default_permissions })) empty

taken : acquire_force_overwrite_lock lock_path 1 free 0 ≡ some (ok tt, with_lock)
unfolding acquire_force_overwrite_lock turn opened create_new
taken = refl

acquire_force_overwrite_lock-IsTaken_example : (j : ℕ) × IsTaken lock_path (free j).found with_lock
acquire_force_overwrite_lock-IsTaken_example =
    acquire_force_overwrite_lock-IsTaken lock_path free 1 0 with_lock taken
