-- ===== src/Ops/Writing.antt =====
-- Writing files, of rs/src/ops/file_utils.rs, on Unix. A store gives the file that stands under a
-- path; each call of the system takes whether it fails, and changes the store. The path of the
-- temporary file, which the source draws at random beside the destination, is an argument.
pub mod Atomic
pub mod Replaced
pub mod Calls
pub mod Stands
use minisign_rs.Base.{
  ℕ, Bool, true, false, not, Option, none, some, List, [], if◌then◌else◌, take, Bytes, Text,
  list_eq, utf8,
}
use minisign_rs.Errors.{
  FilePath, IoError, already_exists, not_found, Error, Result, ok, err, ◌>>=◌, is_err, file_write,
  file_exists, output_is_symlink,
}
use minisign_rs.Ops.Files.{IoResult, io_ok, io_err}

-- A file: what it holds, and its permissions.
pub record Entry : Type 0 where
  pub contents : Bytes
  pub mode : ℕ

abbrev pub Store : Type 0
Store = FilePath → Option Entry

-- How each call of one operation fails, if it does; a failing write leaves a part of the bytes.
pub record Faults : Type 0 where
  pub create_fault : Option IoError
  pub chmod_fault : Option IoError
  pub sync_fault : Option IoError
  pub move_fault : Option IoError
  pub remove_fault : Option IoError
  pub directory_fault : Option IoError
  pub write_fault : Option (ℕ × IoError)

-- 0o600
abbrev pub secret_key_file_permissions : ℕ
secret_key_file_permissions = 384

-- The permissions of a file that is made without any given, 0o644 under the usual mask.
abbrev pub default_permissions : ℕ
default_permissions = 420

unfoldable pub set_entry : FilePath → Option Entry → Store → Store
unfolding list_eq
set_entry path entry store other = if list_eq other path then entry else store other

abbrev pub Outcome : Type 0
Outcome = IoResult (Unit {0}) × Store

-- A call that changes nothing but may fail.
abbrev pub call : Option IoError → Store → Outcome
call none store = (io_ok tt, store)
call (some e) store = (io_err e, store)

-- A call that changes the store if it does not fail.
abbrev pub changing : Option IoError → Store → Store → Outcome
changing none store changed = (io_ok tt, changed)
changing (some e) store changed = (io_err e, store)

-- `OpenOptions::create_new`
unfoldable pub create_new : Option IoError → FilePath → ℕ → Store → Outcome
unfolding set_entry
create_new fault path mode store = elim (store path) [
  | some entry ↦ (io_err already_exists, store)
  | none ↦
      changing fault store (set_entry path (some (record { contents = []; mode = mode })) store)
]

unfoldable pub set_permissions : Option IoError → FilePath → ℕ → Store → Outcome
unfolding set_entry
set_permissions fault path mode store = elim (store path) [
  | none ↦ (io_err not_found, store)
  | some entry ↦ changing fault store (set_entry path (some (record entry { mode = mode })) store)
]

abbrev pub with_contents : Option Entry → Bytes → Option Entry
with_contents none bytes = none
with_contents (some entry) bytes = some (record entry { contents = bytes })

-- `write_all` on a new file.
unfoldable pub write_all : Option (ℕ × IoError) → FilePath → Bytes → Store → Outcome
unfolding set_entry
write_all none path bytes store =
    (io_ok tt, set_entry path (with_contents (store path) bytes) store)
write_all (some (n, e)) path bytes store =
    (io_err e, set_entry path (with_contents (store path) (take n bytes)) store)

unfoldable pub rename : Option IoError → FilePath → FilePath → Store → Outcome
unfolding set_entry
rename fault from to store = elim (store from) [
  | none ↦ (io_err not_found, store)
  | some entry ↦ changing fault store (set_entry from none (set_entry to (some entry) store))
]

unfoldable pub hard_link : Option IoError → FilePath → FilePath → Store → Outcome
unfolding set_entry
hard_link fault from to store = elim (store to) [
  | some entry ↦ (io_err already_exists, store)
  | none ↦ elim (store from) [
    | none ↦ (io_err not_found, store)
    | some entry ↦ changing fault store (set_entry to (some entry) store)
  ]
]

-- `remove_file`; its failure is only warned about.
unfoldable pub remove_file : Option IoError → FilePath → Store → Store
unfolding set_entry
remove_file none path store = set_entry path none store
remove_file (some e) path store = store

-- A call and, if it succeeds, the rest; an error is given its path.
abbrev pub step :
    Outcome → (IoError → Error) → (Store → Result (Unit {0}) × Store) → Result (Unit {0}) × Store
step (io_ok u, store) error rest = rest store
step (io_err e, store) error rest = (err (error e), store)

abbrev pub finish : Store → Result (Unit {0}) × Store
finish store = (ok tt, store)

-- `map_err` behind `hard_link` and `create_new`
abbrev pub exists_or_write : FilePath → IoError → Error
exists_or_write path already_exists = file_exists path
exists_or_write path e = file_write path e

unfoldable pub sync_parent_directory : Option IoError → FilePath → Store → Result (Unit {0}) × Store
sync_parent_directory fault path store = step (call fault store) (file_write path) finish

module _ (faults : Faults) where
  open faults use {
    create_fault, chmod_fault, sync_fault, move_fault, remove_fault, directory_fault, write_fault,
  }

  -- The permissions are set where they are given.
  unfoldable pub stage_permissions :
      FilePath → Option ℕ → (Store → Result (Unit {0}) × Store) → Store → Result (Unit {0}) × Store
  unfolding set_permissions
  stage_permissions tmp_path none rest store = rest store
  stage_permissions tmp_path (some mode) rest store =
      step (set_permissions chmod_fault tmp_path mode store) (file_write tmp_path) rest

  -- The closure of `atomic_replace_file`.
  unfoldable pub replace_staged :
      FilePath → FilePath → Bytes → Option ℕ → Store → Result (Unit {0}) × Store
  unfolding create_new stage_permissions write_all rename
  replace_staged path tmp_path contents unix_mode store =
      step
        (create_new create_fault tmp_path
          (elim unix_mode [ none ↦ default_permissions | some mode ↦ mode ]) store)
        (file_write tmp_path)
        (stage_permissions tmp_path unix_mode (λ s1.
          step (write_all write_fault tmp_path contents s1) (file_write tmp_path) (λ s2.
            step (call sync_fault s2) (file_write tmp_path)
              (λ s3. step (rename move_fault tmp_path path s3) (file_write path) finish))))

  -- What follows the closure: the temporary file is removed after a failure, and the directory is
  -- synchronised after a success.
  unfoldable pub replace_finish :
      FilePath → FilePath → Result (Unit {0}) × Store → Result (Unit {0}) × Store
  unfolding remove_file sync_parent_directory
  replace_finish path tmp_path (ok u, store) = sync_parent_directory directory_fault path store
  replace_finish path tmp_path (err e, store) = (err e, remove_file remove_fault tmp_path store)

  unfoldable pub atomic_replace_file :
      FilePath → FilePath → Bytes → Option ℕ → Store → Result (Unit {0}) × Store
  unfolding replace_staged replace_finish
  atomic_replace_file path tmp_path contents unix_mode store =
      replace_finish path tmp_path (replace_staged path tmp_path contents unix_mode store)

  -- The closure of `atomic_create_secret_key`.
  unfoldable pub create_staged : FilePath → FilePath → Bytes → ℕ → Store → Result (Unit {0}) × Store
  unfolding create_new set_permissions write_all hard_link sync_parent_directory
  create_staged path tmp_path contents mode store =
      step (create_new create_fault tmp_path mode store) (file_write tmp_path) (λ s1.
        step (set_permissions chmod_fault tmp_path mode s1) (file_write path) (λ s2.
          step (write_all write_fault tmp_path contents s2) (file_write tmp_path) (λ s3.
            step (call sync_fault s3) (file_write tmp_path) (λ s4.
              step (hard_link move_fault tmp_path path s4) (exists_or_write path)
                (sync_parent_directory directory_fault path)))))

  unfoldable pub atomic_create_secret_key :
      FilePath → FilePath → Bytes → ℕ → Store → Result (Unit {0}) × Store
  unfolding create_staged remove_file
  atomic_create_secret_key path tmp_path contents mode store =
      let (result, s) = create_staged path tmp_path contents mode store in
      (result, remove_file remove_fault tmp_path s)

  unfoldable pub write_secret_key_file :
      FilePath → FilePath → Bytes → Bool → Store → Result (Unit {0}) × Store
  unfolding atomic_replace_file atomic_create_secret_key
  write_secret_key_file path tmp_path contents force store =
      if force
      then atomic_replace_file path tmp_path contents (some secret_key_file_permissions) store
      else atomic_create_secret_key path tmp_path contents secret_key_file_permissions store

-- `reject_symlink`, by what `symlink_metadata` gives: whether the path is a symbolic link.
unfoldable pub reject_symlink : FilePath → IoResult Bool → Result (Unit {0})
reject_symlink path (io_ok true) = err (output_is_symlink path)
reject_symlink path (io_ok false) = ok tt
reject_symlink path (io_err not_found) = ok tt
reject_symlink path (io_err e) = err (file_write path e)

module _ (faults : Faults) (symlink_metadata : IoResult Bool) where
  open faults use {create_fault, write_fault}

  -- `write_file` with `force`.
  unfoldable pub write_forced :
      FilePath → FilePath → Bytes → Result (Unit {0}) → Store → Result (Unit {0}) × Store
  unfolding atomic_replace_file
  write_forced path tmp_path contents (err e) store = (err e, store)
  write_forced path tmp_path contents (ok u) store =
      atomic_replace_file faults path tmp_path contents none store

  unfoldable pub write_file : FilePath → FilePath → Bytes → Bool → Store → Result (Unit {0}) × Store
  unfolding write_forced reject_symlink create_new write_all
  write_file path tmp_path contents force store =
      if force
      then write_forced path tmp_path contents (reject_symlink path symlink_metadata) store
      else step (create_new create_fault path default_permissions store) (exists_or_write path)
          (λ s. step (write_all write_fault path contents s) (file_write path) finish)

  unfoldable pub write_public_key_file :
      FilePath → FilePath → Text → Bool → Store → Result (Unit {0}) × Store
  unfolding write_file
  write_public_key_file path tmp_path contents force store =
      write_file path tmp_path (utf8 contents) force store

  unfoldable pub write_signature_file :
      FilePath → FilePath → Text → Bool → Store → Result (Unit {0}) × Store
  unfolding write_file
  write_signature_file path tmp_path contents force store =
      write_file path tmp_path (utf8 contents) force store
