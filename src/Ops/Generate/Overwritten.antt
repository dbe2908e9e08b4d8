-- ===== src/Ops/Generate/Overwritten.antt =====
-- Overwriting a pair, of rs/src/ops/generate.rs, is all or nothing.
use minisign_rs.Base.{◌≡◌, ◌≢◌, refl, sym, ap, ◌∙◌, inl, inr, true, none, some, Bytes, Text, utf8}
use minisign_rs.Errors.{ok, err}
use minisign_rs.Ops.Writing.{Entry, Store, remove_file, secret_key_file_permissions}
use minisign_rs.Ops.Writing.Atomic.{remove_file_keeps}
use minisign_rs.Ops.Generate.Pair.{
  PairPaths, PairFaults, Run, attempt, exists, clear, commit_keypair_files, commit_finish, put_back,
  aside_secret, aside_public, overwrite_pair, write_keypair_files_with_overwrite,
}
use minisign_rs.Ops.Generate.Steps.{
  Role, secret_at, public_at, secret_tmp_at, public_tmp_at, secret_backup_at, public_backup_at,
  lock_at, path_of, AreDistinct, apart, PairDone, CanRemove, clear_keeps, temp_entry, temp_files,
}
use minisign_rs.Ops.Generate.Aside.{IsAside, set_aside_cases}
use minisign_rs.Ops.Generate.Emptied.{
  IsEmptied-by, cleared, public_first, back_secret_restores, back_secret_keeps, CanRestore,
}
use minisign_rs.Ops.Generate.Committed.{commit_keypair_files-CommitDone, commit_finish-PairDone}

module _ (paths : PairPaths) (faults : PairFaults) (distinct : AreDistinct paths)
    (can : CanRemove faults) (able : CanRestore faults) (secret public : Entry)
    (store : Store) where
  open paths use {secret_path, public_path, secret_tmp, public_tmp, secret_backup, public_backup}
  open faults use {
    backup_secret_fault, backup_public_fault, sync_secret_backup_fault, sync_public_backup_fault,
    restore_secret_fault, restore_public_fault,
  }

  abbrev Done : Run → Type 0
  Done = PairDone paths store secret public

  -- From the secret file's backup on.
  public_aside :
      (s2 s3 : Store)
      → s2 secret_path ≡ store secret_path
      → s2 public_path ≡ store public_path
      → IsAside secret_path secret_backup (s2 secret_path) s2 s3
      → s2 secret_tmp ≡ some secret
      → s2 public_tmp ≡ some public
      → Done (
          attempt
            (aside_public paths faults (exists (s2 secret_path)) s3)
            (λ s. s)
            (λ s4.
              commit_finish paths faults
                (exists (s2 secret_path))
                (exists (s3 public_path))
                (commit_keypair_files paths faults s4)))
  public_aside s2 s3 a b aside x y =
      let os = s2 secret_path in
      let op = s3 public_path in
      let kept = λ (r : Role) (h : r ≢ secret_at) (k : r ≢ secret_backup_at).
        aside.kept (path_of paths r) (apart paths distinct r secret_at h)
          (apart paths distinct r secret_backup_at k) in
      let b3 : op ≡ store public_path = kept public_at (λ e. cc) (λ e. cc) ∙ b in
      let kept2 =
        λ (t : Store) (aside2 : IsAside public_path public_backup op s3 t) (r : Role)
            (h : r ≢ public_at) (k : r ≢ public_backup_at).
          aside2.kept (path_of paths r) (apart paths distinct r public_at h)
            (apart paths distinct r public_backup_at k) in
      let emptied = λ (t : Store) (aside2 : IsAside public_path public_backup op s3 t).
        IsEmptied-by paths faults distinct can able os op t
          (kept2 t aside2 secret_at (λ e. cc) (λ e. cc) ∙ aside.gone) aside2.gone
          (rw (kept2 t aside2 secret_backup_at (λ e. cc) (λ e. cc)) aside.held) aside2.held in
      set_aside_cases backup_public_fault sync_public_backup_fault public_path public_backup
        (λ s.
          put_back (exists os) restore_secret_fault secret_backup secret_path
            (clear paths faults s))
        (λ s.
          put_back (exists os) restore_secret_fault secret_backup secret_path
            (put_back true restore_public_fault public_backup public_path (clear paths faults s)))
        s3 (apart paths distinct public_backup_at public_at (λ e. cc))
        (λ r. Done (
          attempt r (λ s. s)
            (λ s4.
              commit_finish paths faults (exists os) (exists op)
                (commit_keypair_files paths faults s4))))
        (λ s4 aside2.
          commit_finish-PairDone paths faults distinct can able os op secret public store _ (sym a)
            (sym b3)
            (commit_keypair_files-CommitDone paths faults distinct can able os op secret public s4
              (emptied s4 aside2)
              (kept2 s4 aside2 secret_tmp_at (λ e. cc) (λ e. cc)
                ∙ kept secret_tmp_at (λ e. cc) (λ e. cc)
                ∙ x)
              (kept2 s4 aside2 public_tmp_at (λ e. cc) (λ e. cc)
                ∙ kept public_tmp_at (λ e. cc) (λ e. cc)
                ∙ y)))
        (λ e.
          let s4 = clear paths faults s3 in
          inr (
            refl,
            back_secret_restores paths faults distinct can able os op s4
                  (clear_keeps paths faults distinct secret_at s3 (λ e. cc) (λ e. cc) ∙ aside.gone)
                  (rw (clear_keeps paths faults distinct secret_backup_at s3 (λ e. cc) (λ e. cc))
                    aside.held)
                ∙ a,
            back_secret_keeps paths faults distinct can able os op public_at s4 (λ e. cc) (λ e. cc)
                ∙ clear_keeps paths faults distinct public_at s3 (λ e. cc) (λ e. cc)
                ∙ b3,
          ))
        (λ e t aside2 had.
          let (back, back2) =
            public_first paths faults distinct can able os op (clear paths faults t)
              (cleared paths faults distinct can able os op t (emptied t aside2)) in
          let same =
            ap
              (λ h.
                put_back (exists os) restore_secret_fault secret_backup secret_path (
                  put_back h restore_public_fault public_backup public_path (clear paths faults t)))
              (sym had) in
          inr (
            refl,
            ap (λ u. u secret_path) same ∙ back ∙ a,
            ap (λ u. u public_path) same ∙ back2 ∙ b3,
          ))

  -- Behind both temporary files.
  secret_aside :
      (s2 : Store)
      → s2 secret_path ≡ store secret_path
      → s2 public_path ≡ store public_path
      → s2 secret_tmp ≡ some secret
      → s2 public_tmp ≡ some public
      → Done (
          attempt
            (aside_secret paths faults s2)
            (λ s. s)
            (λ s3.
              attempt
                (aside_public paths faults (exists (s2 secret_path)) s3)
                (λ s. s)
                (λ s4.
                  commit_finish paths faults
                    (exists (s2 secret_path))
                    (exists (s3 public_path))
                    (commit_keypair_files paths faults s4))))
  secret_aside s2 a b x y =
      let os = s2 secret_path in
      set_aside_cases backup_secret_fault sync_secret_backup_fault secret_path secret_backup
        (clear paths faults)
        (λ s. put_back true restore_secret_fault secret_backup secret_path (clear paths faults s))
        s2 (apart paths distinct secret_backup_at secret_at (λ e. cc))
        (λ r. Done (
          attempt r (λ s. s)
            (λ s3.
              attempt (aside_public paths faults (exists os) s3) (λ s. s)
                (λ s4.
                  commit_finish paths faults (exists os) (exists (s3 public_path))
                    (commit_keypair_files paths faults s4)))))
        (λ s3 aside. public_aside s2 s3 a b aside x y)
        (λ e. inr (
          refl,
          clear_keeps paths faults distinct secret_at s2 (λ e. cc) (λ e. cc) ∙ a,
          clear_keeps paths faults distinct public_at s2 (λ e. cc) (λ e. cc) ∙ b,
        ))
        (λ e t aside had.
          let t1 = clear paths faults t in
          let same =
            ap (λ h. put_back h restore_secret_fault secret_backup secret_path t1) (sym had) in
          inr (
            refl,
            ap (λ u. u secret_path) same
                ∙ back_secret_restores paths faults distinct can able os (store public_path) t1
                    (clear_keeps paths faults distinct secret_at t (λ e. cc) (λ e. cc) ∙ aside.gone)
                    (rw (clear_keeps paths faults distinct secret_backup_at t (λ e. cc) (λ e. cc))
                      aside.held)
                ∙ a,
            ap (λ u. u public_path) same
                ∙ back_secret_keeps paths faults distinct can able os (store public_path) public_at
                    t1 (λ e. cc) (λ e. cc)
                ∙ clear_keeps paths faults distinct public_at t (λ e. cc) (λ e. cc)
                ∙ aside.kept public_path (apart paths distinct public_at secret_at (λ e. cc))
                    (apart paths distinct public_at secret_backup_at (λ e. cc))
                ∙ b,
          ))

module _ (paths : PairPaths) (faults : PairFaults) (distinct : AreDistinct paths)
    (can : CanRemove faults) (able : CanRestore faults) (secret_contents public_contents : Bytes)
    (store : Store) where
  open paths use {secret_path, public_path, secret_tmp, public_tmp}
  open faults use {secret_temp_faults, public_temp_faults}

  overwrite_pair-PairDone :
      PairDone paths store
        (temp_entry secret_contents (some secret_key_file_permissions))
        (temp_entry public_contents none)
        (overwrite_pair paths faults secret_contents public_contents store)
  unfolding overwrite_pair
  overwrite_pair-PairDone =
      let secret = temp_entry secret_contents (some secret_key_file_permissions) in
      let public = temp_entry public_contents none in
      temp_files paths faults distinct secret_contents public_contents store _
        (PairDone paths store _ _) (λ e s a b. inr (refl, a, b))
        (λ s2 a b x y. secret_aside paths faults distinct can able secret public store s2 a b x y)

unlocked :
    (paths : PairPaths) (faults : PairFaults) (distinct : AreDistinct paths) (store : Store)
    (secret public : Entry) (x : Run)
    → PairDone paths store secret public x
    → PairDone paths store secret public
        (x.0, remove_file (faults.remove_lock_fault) (paths.lock_path) x.1)
unlocked paths faults distinct store secret public (r, t) h =
    let fault = faults.remove_lock_fault in
    let a =
      remove_file_keeps fault (paths.lock_path) (paths.secret_path) t
        (apart paths distinct secret_at lock_at (λ e. cc)) in
    let b =
      remove_file_keeps fault (paths.lock_path) (paths.public_path) t
        (apart paths distinct public_at lock_at (λ e. cc)) in
    elim h [
      | inl (good, x, y) ↦ inl (good, a ∙ x, b ∙ y)
      | inr (bad, x, y) ↦ inr (bad, a ∙ x, b ∙ y)
    ]

module _ (paths : PairPaths) (faults : PairFaults) (distinct : AreDistinct paths)
    (can : CanRemove faults) (able : CanRestore faults) where
  -- Overwriting a pair is all or nothing from the store that the attempt to get the lock left,
  -- whichever of its calls fail, as long as the removals and renames that undo it succeed and its
  -- paths are distinct: both new files are there with their contents and permissions, or the call
  -- failed and both paths have the files that they had, or none where they had none.
  pub write_keypair_files_with_overwrite-PairDone :
      (lock : Run) (secret_contents public_contents : Text)
      → PairDone paths lock.1
          (temp_entry (utf8 secret_contents) (some secret_key_file_permissions))
          (temp_entry (utf8 public_contents) none)
          (write_keypair_files_with_overwrite paths faults lock secret_contents public_contents)
  unfolding write_keypair_files_with_overwrite
  write_keypair_files_with_overwrite-PairDone (err e, store) secret_contents public_contents =
      inr (refl, refl, refl)
  write_keypair_files_with_overwrite-PairDone (ok guard, store) secret_contents public_contents =
      unlocked paths faults distinct store
        (temp_entry (utf8 secret_contents) (some secret_key_file_permissions))
        (temp_entry (utf8 public_contents) none)
        (overwrite_pair paths faults (utf8 secret_contents) (utf8 public_contents) store)
        (overwrite_pair-PairDone paths faults distinct can able (utf8 secret_contents)
          (utf8 public_contents) store)
