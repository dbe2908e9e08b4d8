-- ===== src/Ops/Generate/Pair.antt =====
-- Writing the two files of a key pair, of rs/src/ops/generate.rs, on Unix in a release build. The
-- temporary and backup paths, which the source draws at random, are arguments.
use minisign_rs.Base.{Bool, true, false, Option, none, some, if◌then◌else◌, ℕ, Bytes, Text, utf8}
use minisign_rs.Errors.{FilePath, IoError, Error, Result, ok, err, file_write, file_exists}
use minisign_rs.Ops.Files.{io_ok, io_err}
use minisign_rs.Ops.Writing.{
  Entry, Store, Faults, Outcome, call, create_new, write_all, rename, hard_link, remove_file, step,
  finish, sync_parent_directory, default_permissions, secret_key_file_permissions,
}

-- The paths of one run; `lock_path` is that of the force-overwrite lock.
pub record PairPaths : Type 0 where
  pub secret_path : FilePath
  pub public_path : FilePath
  pub secret_tmp : FilePath
  pub public_tmp : FilePath
  pub secret_backup : FilePath
  pub public_backup : FilePath
  pub lock_path : FilePath

-- How each call of one run fails, if it does. No call of this list is made twice in a run.
pub record PairFaults : Type 0 where
  pub secret_temp_faults : Faults
  pub public_temp_faults : Faults
  pub link_secret_fault : Option IoError
  pub link_public_fault : Option IoError
  pub move_secret_fault : Option IoError
  pub move_public_fault : Option IoError
  pub sync_secret_fault : Option IoError
  pub sync_public_fault : Option IoError
  pub backup_secret_fault : Option IoError
  pub backup_public_fault : Option IoError
  pub sync_secret_backup_fault : Option IoError
  pub sync_public_backup_fault : Option IoError
  pub restore_secret_fault : Option IoError
  pub restore_public_fault : Option IoError
  pub remove_secret_fault : Option IoError
  pub remove_public_fault : Option IoError
  pub remove_secret_tmp_fault : Option IoError
  pub remove_public_tmp_fault : Option IoError
  pub remove_secret_backup_fault : Option IoError
  pub remove_public_backup_fault : Option IoError
  pub remove_lock_fault : Option IoError

abbrev pub Run : Type 0
Run = Result (Unit {0}) × Store

-- `map_err` on a call.
abbrev pub mapped : (IoError → Error) → Outcome → Run
mapped error (io_ok u, store) = (ok tt, store)
mapped error (io_err e, store) = (err (error e), store)

-- `if let Err(e) = ... { undo; return Err(e) }`, and the rest.
abbrev pub attempt : Run → (Store → Store) → (Store → Run) → Run
attempt (ok u, store) undo rest = rest store
attempt (err e, store) undo rest = (err e, undo store)

-- `Path::exists`
abbrev pub exists : Option Entry → Bool
exists none = false
exists (some entry) = true

abbrev pub temp_mode : Option ℕ → ℕ
temp_mode none = default_permissions
temp_mode (some mode) = mode

-- A failure leaves the temporary file behind.
unfoldable pub write_temp_file : Faults → FilePath → Bytes → Option ℕ → Store → Run
unfolding create_new write_all
write_temp_file faults tmp_path contents unix_mode store =
    step (create_new (faults.create_fault) tmp_path (temp_mode unix_mode) store)
      (file_write tmp_path)
      (λ s1.
        step (write_all (faults.write_fault) tmp_path contents s1) (file_write tmp_path)
          (λ s2. step (call (faults.sync_fault) s2) (file_write tmp_path) finish))

pub data KeypairCommitStage : Type 0 where
  started public_renamed secret_renamed : KeypairCommitStage

pub record CommitKeypairFilesError : Type 0 where
  pub source : Error
  pub stage : KeypairCommitStage

-- The result of a commit.
pub data Commit : Type 0 where
  committed : Commit
  failed : CommitKeypairFilesError → Commit

-- `map_err(|e| CommitKeypairFilesError::new(e, stage))?`, and the rest.
abbrev pub at_stage : Run → KeypairCommitStage → (Store → Commit × Store) → Commit × Store
at_stage (ok u, store) stage rest = rest store
at_stage (err e, store) stage rest = (failed (record { source = e; stage = stage }), store)

-- A file that a path may have is moved to its backup path, and its directory is synchronised;
-- each of the two failures is undone in its own way.
unfoldable pub set_aside :
    Bool
    → Option IoError
    → Option IoError
    → FilePath
    → FilePath
    → (Store → Store)
    → (Store → Store)
    → Store
    → Run
unfolding rename sync_parent_directory
set_aside false backup_fault sync_fault path backup undo undo_synced store = (ok tt, store)
set_aside true backup_fault sync_fault path backup undo undo_synced store =
    attempt (mapped (file_write path) (rename backup_fault path backup store)) undo
      (λ s. attempt (sync_parent_directory sync_fault path s) undo_synced finish)

-- What a rename leaves, if its failure is only reported.
unfoldable pub put_back : Bool → Option IoError → FilePath → FilePath → Store → Store
unfolding rename
put_back true fault backup path store = (rename fault backup path store).1
put_back false fault backup path store = store

unfoldable pub drop_backup : Bool → Option IoError → FilePath → Store → Store
unfolding remove_file
drop_backup true fault backup store = remove_file fault backup store
drop_backup false fault backup store = store

module _ (paths : PairPaths) (faults : PairFaults) where
  open paths use {
    secret_path, public_path, secret_tmp, public_tmp, secret_backup, public_backup, lock_path,
  }
  open faults use {
    secret_temp_faults, public_temp_faults, link_secret_fault, link_public_fault, move_secret_fault,
    move_public_fault, sync_secret_fault, sync_public_fault, backup_secret_fault,
    backup_public_fault, sync_secret_backup_fault, sync_public_backup_fault, restore_secret_fault,
    restore_public_fault, remove_secret_fault, remove_public_fault, remove_secret_tmp_fault,
    remove_public_tmp_fault, remove_secret_backup_fault, remove_public_backup_fault,
    remove_lock_fault,
  }

  abbrev pub remove_secret_tmp : Store → Store
  remove_secret_tmp store = remove_file remove_secret_tmp_fault secret_tmp store

  -- Both temporary files are removed.
  abbrev pub clear : Store → Store
  clear store = remove_file remove_public_tmp_fault public_tmp (remove_secret_tmp store)

  abbrev pub unlink_secret : Store → Store
  unlink_secret store = clear (remove_file remove_secret_fault secret_path store)

  abbrev pub unlink_both : Store → Store
  unlink_both store = unlink_secret (remove_file remove_public_fault public_path store)

  -- `write_keypair_files_create_new` behind its first two checks.
  unfoldable pub create_pair : Bytes → Bytes → Store → Run
  unfolding write_temp_file hard_link remove_file sync_parent_directory
  create_pair secret_contents public_contents store =
      attempt
        (write_temp_file secret_temp_faults secret_tmp secret_contents
          (some secret_key_file_permissions) store)
        (λ s. s)
        (λ s1.
          attempt (write_temp_file public_temp_faults public_tmp public_contents none s1)
            remove_secret_tmp
            (λ s2.
              attempt
                (mapped (file_write secret_path)
                  (hard_link link_secret_fault secret_tmp secret_path s2))
                clear
                (λ s3.
                  attempt (sync_parent_directory sync_secret_fault secret_path s3) unlink_secret
                    (λ s4.
                      attempt
                        (mapped (file_write public_path)
                          (hard_link link_public_fault public_tmp public_path s4))
                        unlink_secret
                        (λ s5.
                          attempt (sync_parent_directory sync_public_fault public_path s5)
                            unlink_both (λ s6. (ok tt, clear s6)))))))

  -- The two checks at the start see the store as it is then; `meanwhile` is what other processes
  -- do to it before the files are written.
  unfoldable pub write_keypair_files_create_new : (Store → Store) → Text → Text → Store → Run
  unfolding create_pair
  write_keypair_files_create_new meanwhile secret_contents public_contents store =
      if exists (store secret_path)
      then (err (file_exists secret_path), meanwhile store)
      else if exists (store public_path)
      then (err (file_exists public_path), meanwhile store)
      else create_pair (utf8 secret_contents) (utf8 public_contents) (meanwhile store)

  unfoldable pub commit_keypair_files : Store → Commit × Store
  unfolding rename sync_parent_directory
  commit_keypair_files store =
      at_stage
        (mapped (file_write public_path) (rename move_public_fault public_tmp public_path store))
        started
        (λ s1.
          at_stage (sync_parent_directory sync_public_fault public_path s1) public_renamed (λ s2.
            at_stage
              (mapped (file_write secret_path) (rename move_secret_fault secret_tmp secret_path s2))
              public_renamed
              (λ s3.
                at_stage (sync_parent_directory sync_secret_fault secret_path s3) secret_renamed
                  (λ s4. (committed, s4)))))

  -- What a failed commit had put under the two paths is removed.
  unfoldable pub undo_commit : KeypairCommitStage → Store → Store
  unfolding remove_file
  undo_commit started store = store
  undo_commit public_renamed store = remove_file remove_public_fault public_path store
  undo_commit secret_renamed store =
      remove_file remove_public_fault public_path
        (remove_file remove_secret_fault secret_path store)

  -- Whether a backup was made stands for its path.
  unfoldable pub rollback_keypair_commit : Bool → Bool → KeypairCommitStage → Store → Store
  unfolding undo_commit put_back
  rollback_keypair_commit had_secret had_public stage store =
      put_back had_public restore_public_fault public_backup public_path (
        put_back had_secret restore_secret_fault secret_backup secret_path
          (undo_commit stage store))

  unfoldable pub commit_finish : Bool → Bool → Commit × Store → Run
  unfolding rollback_keypair_commit drop_backup
  commit_finish had_secret had_public (committed, store) = (
    ok tt,
    drop_backup had_public remove_public_backup_fault public_backup
        (drop_backup had_secret remove_secret_backup_fault secret_backup store),
  )
  commit_finish had_secret had_public (failed e, store) =
      (err e.source, rollback_keypair_commit had_secret had_public e.stage (clear store))

  abbrev pub aside_secret : Store → Run
  aside_secret store =
      set_aside (exists (store secret_path)) backup_secret_fault sync_secret_backup_fault
        secret_path secret_backup clear
        (λ s. put_back true restore_secret_fault secret_backup secret_path (clear s)) store

  abbrev pub aside_public : Bool → Store → Run
  aside_public had_secret store =
      set_aside (exists (store public_path)) backup_public_fault sync_public_backup_fault
        public_path public_backup
        (λ s. put_back had_secret restore_secret_fault secret_backup secret_path (clear s))
        (λ s.
          put_back had_secret restore_secret_fault secret_backup secret_path
            (put_back true restore_public_fault public_backup public_path (clear s)))
        store

  -- `write_keypair_files_with_overwrite` once the lock is held.
  unfoldable pub overwrite_pair : Bytes → Bytes → Store → Run
  unfolding write_temp_file set_aside commit_keypair_files commit_finish
  overwrite_pair secret_contents public_contents store =
      attempt
        (write_temp_file secret_temp_faults secret_tmp secret_contents
          (some secret_key_file_permissions) store)
        (λ s. s)
        (λ s1.
          attempt (write_temp_file public_temp_faults public_tmp public_contents none s1)
            remove_secret_tmp
            (λ s2.
              attempt (aside_secret s2) (λ s. s)
                (λ s3.
                  attempt (aside_public (exists (s2 secret_path)) s3) (λ s. s)
                    (λ s4.
                      commit_finish (exists (s2 secret_path)) (exists (s3 public_path))
                        (commit_keypair_files s4)))))

  -- The lock is released whichever way the function is left.
  unfoldable pub write_keypair_files_with_overwrite : Run → Text → Text → Run
  unfolding overwrite_pair remove_file
  write_keypair_files_with_overwrite (err e, store) secret_contents public_contents = (err e, store)
  write_keypair_files_with_overwrite (ok guard, store) secret_contents public_contents =
      let (result, s) = overwrite_pair (utf8 secret_contents) (utf8 public_contents) store in
      (result, remove_file remove_lock_fault lock_path s)
