-- ===== src/Tests/Writing.antt =====
-- Writing over and beside a file of a small store.
use minisign_rs.Base.{
  arith, ◌≡◌, ◌≢◌, refl, true, none, some, [], ◌∷◌, if◌then◌else◌, codes, list_eq,
}
use minisign_rs.Errors.{FilePath, other_kind, is_err}
use minisign_rs.Ops.Writing.{Entry, Store, Faults, atomic_create_secret_key, atomic_replace_file}
use minisign_rs.Ops.Writing.Atomic.{atomic_create_secret_key-keeps}
use minisign_rs.Ops.Writing.Replaced.{Done, mode_of, atomic_replace_file-Done}

abbrev key_path : FilePath
key_path = codes "k"

abbrev tmp_path : FilePath
tmp_path = codes ".k.tmp"

abbrev old_key : Entry
old_key = record { contents = 1 ∷ 2 ∷ []; mode = 384 }

abbrev store : Store
store path = if list_eq path key_path then some old_key else none

-- The write fails after one byte.
abbrev full_disk : Faults
full_disk = record {
  create_fault = none;
  chmod_fault = none;
  sync_fault = none;
  move_fault = none;
  remove_fault = none;
  directory_fault = none;
  write_fault = some (1, other_kind);
}

distinct : key_path ≢ tmp_path
distinct h = ground arith

key_there : store key_path ≡ some old_key
unfolding list_eq
key_there = refl

atomic_create_secret_key-keeps_example :
    (is_err (atomic_create_secret_key full_disk key_path tmp_path (3 ∷ []) 384 store).0 ≡ true)
    × ((atomic_create_secret_key full_disk key_path tmp_path (3 ∷ []) 384 store).1 key_path
        ≡ some old_key)
atomic_create_secret_key-keeps_example =
    atomic_create_secret_key-keeps full_disk key_path tmp_path old_key distinct (3 ∷ []) 384 store
      key_there

atomic_replace_file-Done_example :
    Done full_disk key_path tmp_path store distinct
      (record { contents = 3 ∷ []; mode = mode_of (some 384) })
      (atomic_replace_file full_disk key_path tmp_path (3 ∷ []) (some 384) store)
atomic_replace_file-Done_example =
    atomic_replace_file-Done full_disk key_path tmp_path store distinct (3 ∷ []) (some 384)
