-- ===== src/Ops/Generate/Emptied.antt =====
-- The store in which both old files stand at their backups, in overwriting a pair, of
-- rs/src/ops/generate.rs.
use minisign_rs.Base.{◌≡◌, ◌≢◌, ◌∙◌, none, Option}
use minisign_rs.Ops.Writing.{Entry, Store}
use minisign_rs.Ops.Generate.Pair.{PairPaths, PairFaults, exists, clear, put_back}
use minisign_rs.Ops.Generate.Steps.{
  Role, secret_at, public_at, secret_backup_at, public_backup_at, path_of, AreDistinct, apart,
  CanRemove, clear_keeps,
}
use minisign_rs.Ops.Generate.Aside.{Held, put_back_restores, put_back_keeps}

-- The renames that put an old file back do not fail.
abbrev pub CanRestore : PairFaults → Type 0
CanRestore faults = (faults.restore_secret_fault ≡ none) × (faults.restore_public_fault ≡ none)

module _ (paths : PairPaths) (faults : PairFaults) (distinct : AreDistinct paths)
    (can : CanRemove faults) (able : CanRestore faults) (old_secret old_public : Option Entry) where
  open paths use {secret_path, public_path, secret_tmp, public_tmp, secret_backup, public_backup}
  open faults use {
    move_secret_fault, move_public_fault, sync_secret_fault, sync_public_fault,
    restore_secret_fault, restore_public_fault, remove_secret_fault, remove_public_fault,
    remove_secret_backup_fault, remove_public_backup_fault,
  }

  -- Nothing is under the two paths, and the old files are at their backups.
  pub record IsEmptied (t : Store) : Type 0 where
    pub no_secret : t secret_path ≡ none
    pub no_public : t public_path ≡ none
    pub secret_held : Held old_secret (t secret_backup)
    pub public_held : Held old_public (t public_backup)

  pub IsEmptied-by :
      (t : Store)
      → t secret_path ≡ none
      → t public_path ≡ none
      → Held old_secret (t secret_backup)
      → Held old_public (t public_backup)
      → IsEmptied t
  IsEmptied-by t a b c d = record { no_secret = a; no_public = b; secret_held = c; public_held = d }

  abbrev pub Restored : Store → Type 0
  Restored t = (t secret_path ≡ old_secret) × (t public_path ≡ old_public)

  pub cleared : (t : Store) → IsEmptied t → IsEmptied (clear paths faults t)
  cleared t e = record {
    no_secret = clear_keeps paths faults distinct secret_at t (λ e. cc) (λ e. cc) ∙ e.no_secret;
    no_public = clear_keeps paths faults distinct public_at t (λ e. cc) (λ e. cc) ∙ e.no_public;
    secret_held =
        rw (clear_keeps paths faults distinct secret_backup_at t (λ e. cc) (λ e. cc)) e.secret_held;
    public_held =
        rw (clear_keeps paths faults distinct public_backup_at t (λ e. cc) (λ e. cc)) e.public_held;
  }

  -- Putting the secret file back.
  abbrev back_secret : Store → Store
  back_secret t = put_back (exists old_secret) restore_secret_fault secret_backup secret_path t

  abbrev back_public : Store → Store
  back_public t = put_back (exists old_public) restore_public_fault public_backup public_path t

  pub back_secret_restores :
      (t : Store)
      → t secret_path ≡ none
      → Held old_secret (t secret_backup)
      → back_secret t secret_path ≡ old_secret
  back_secret_restores t free held =
      put_back_restores restore_secret_fault secret_path secret_backup old_secret t
        (apart paths distinct secret_at secret_backup_at (λ e. cc)) able.0 free held

  pub back_public_restores :
      (t : Store)
      → t public_path ≡ none
      → Held old_public (t public_backup)
      → back_public t public_path ≡ old_public
  back_public_restores t free held =
      put_back_restores restore_public_fault public_path public_backup old_public t
        (apart paths distinct public_at public_backup_at (λ e. cc)) able.1 free held

  pub back_secret_keeps :
      (r : Role) (t : Store)
      → r ≢ secret_at
      → r ≢ secret_backup_at
      → back_secret t (path_of paths r) ≡ t (path_of paths r)
  back_secret_keeps r t h k =
      put_back_keeps (exists old_secret) restore_secret_fault secret_path secret_backup
        (path_of paths r) t (apart paths distinct r secret_at h)
        (apart paths distinct r secret_backup_at k)

  pub back_public_keeps :
      (r : Role) (t : Store)
      → r ≢ public_at
      → r ≢ public_backup_at
      → back_public t (path_of paths r) ≡ t (path_of paths r)
  back_public_keeps r t h k =
      put_back_keeps (exists old_public) restore_public_fault public_path public_backup
        (path_of paths r) t (apart paths distinct r public_at h)
        (apart paths distinct r public_backup_at k)

  -- The order in which a commit that failed puts the files back, and the order in which a failed
  -- backup does.
  pub secret_first : (t : Store) → IsEmptied t → Restored (back_public (back_secret t))
  secret_first t e = (
    back_public_keeps secret_at (back_secret t) (λ e. cc) (λ e. cc)
        ∙ back_secret_restores t e.no_secret e.secret_held,
    back_public_restores (back_secret t)
        (back_secret_keeps public_at t (λ e. cc) (λ e. cc) ∙ e.no_public)
        (rw (back_secret_keeps public_backup_at t (λ e. cc) (λ e. cc)) e.public_held),
  )

  pub public_first : (t : Store) → IsEmptied t → Restored (back_secret (back_public t))
  public_first t e = (
    back_secret_restores (back_public t)
        (back_public_keeps secret_at t (λ e. cc) (λ e. cc) ∙ e.no_secret)
        (rw (back_public_keeps secret_backup_at t (λ e. cc) (λ e. cc)) e.secret_held),
    back_secret_keeps public_at (back_public t) (λ e. cc) (λ e. cc)
        ∙ back_public_restores t e.no_public e.public_held,
  )
