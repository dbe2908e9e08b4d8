-- ===== src/Ops/Generate/Committed.antt =====
-- Committing a pair, of rs/src/ops/generate.rs, or undoing what a failed commit did.
use minisign_rs.Base.{◌≡◌, ◌≢◌, refl, sym, ap, ◌∙◌, inl, inr, none, some, Option}
use minisign_rs.Errors.{Error, file_write}
use minisign_rs.Ops.Writing.{Entry, Store, rename, remove_file, sync_parent_directory}
use minisign_rs.Ops.Writing.Atomic.{remove_file_keeps}
use minisign_rs.Ops.Writing.Calls.{rename_keeps, rename_made, rename_failed}
use minisign_rs.Ops.Generate.Pair.{
  PairPaths, PairFaults, mapped, exists, clear, Commit, committed, failed, at_stage, started,
  public_renamed, secret_renamed, commit_keypair_files, undo_commit, rollback_keypair_commit,
  commit_finish, drop_backup,
}
use minisign_rs.Ops.Generate.Steps.{
  Role, secret_at, public_at, secret_tmp_at, public_tmp_at, secret_backup_at, public_backup_at,
  path_of, AreDistinct, apart, PairDone, CanRemove, removed, clear_keeps, at_stage_cases,
  mapped_store, mapped_ok, mapped_err, sync_parent_directory_store,
}
use minisign_rs.Ops.Generate.Aside.{Held, drop_backup_keeps}
use minisign_rs.Ops.Generate.Emptied.{IsEmptied, cleared, secret_first, CanRestore}

module _ (paths : PairPaths) (faults : PairFaults) (distinct : AreDistinct paths)
    (can : CanRemove faults) (able : CanRestore faults) (old_secret old_public : Option Entry) where
  open paths use {secret_path, public_path, secret_tmp, public_tmp, secret_backup, public_backup}
  open faults use {
    move_secret_fault, move_public_fault, sync_secret_fault, sync_public_fault,
    restore_secret_fault, restore_public_fault, remove_secret_fault, remove_public_fault,
    remove_secret_backup_fault, remove_public_backup_fault,
  }

  abbrev Emptied : Store → Type 0
  Emptied = IsEmptied paths faults distinct can able old_secret old_public

  -- The two backups hold the old files.
  abbrev Backed : Store → Type 0
  Backed t = Held old_secret (t secret_backup) × Held old_public (t public_backup)

  module _ (secret public : Entry) where
    -- A commit has put both files in place, or what it did is undone to nothing.
    pub CommitDone : Commit × Store → Type 0
    CommitDone (committed, t) = (t secret_path ≡ some secret) × (t public_path ≡ some public)
    CommitDone (failed e, t) = Emptied (undo_commit paths faults e.stage (clear paths faults t))

    undone_public :
        (e : Error) (t : Store)
        → t secret_path ≡ none
        → Backed t
        → CommitDone (failed (record { source = e; stage = public_renamed }), t)
    unfolding CommitDone undo_commit
    undone_public e t a (b, c) =
        let t1 = clear paths faults t in
        let keeps = λ (r : Role) (h : r ≢ public_at).
          remove_file_keeps remove_public_fault public_path (path_of paths r) t1
            (apart paths distinct r public_at h) in
        record {
          no_secret =
              keeps secret_at (λ e. cc)
              ∙ clear_keeps paths faults distinct secret_at t (λ e. cc) (λ e. cc)
              ∙ a;
          no_public = removed remove_public_fault public_path t1 can.1;
          secret_held =
              rw
                (keeps secret_backup_at (λ e. cc)
                  ∙ clear_keeps paths faults distinct secret_backup_at t (λ e. cc) (λ e. cc))
                b;
          public_held =
              rw
                (keeps public_backup_at (λ e. cc)
                  ∙ clear_keeps paths faults distinct public_backup_at t (λ e. cc) (λ e. cc))
                c;
        }

    undone_both :
        (e : Error) (t : Store)
        → Backed t
        → CommitDone (failed (record { source = e; stage = secret_renamed }), t)
    unfolding CommitDone undo_commit
    undone_both e t (b, c) =
        let t1 = clear paths faults t in
        let t2 = remove_file remove_secret_fault secret_path t1 in
        let keeps = λ (r : Role) (h : r ≢ public_at).
          remove_file_keeps remove_public_fault public_path (path_of paths r) t2
            (apart paths distinct r public_at h) in
        let keeps2 = λ (r : Role) (h : r ≢ secret_at).
          remove_file_keeps remove_secret_fault secret_path (path_of paths r) t1
            (apart paths distinct r secret_at h) in
        record {
          no_secret = keeps secret_at (λ e. cc) ∙ removed remove_secret_fault secret_path t1 can.0;
          no_public = removed remove_public_fault public_path t2 can.1;
          secret_held =
              rw
                (keeps secret_backup_at (λ e. cc)
                  ∙ keeps2 secret_backup_at (λ e. cc)
                  ∙ clear_keeps paths faults distinct secret_backup_at t (λ e. cc) (λ e. cc))
                b;
          public_held =
              rw
                (keeps public_backup_at (λ e. cc)
                  ∙ keeps2 public_backup_at (λ e. cc)
                  ∙ clear_keeps paths faults distinct public_backup_at t (λ e. cc) (λ e. cc))
                c;
        }

    -- The secret file's part of a commit.
    secret_committed :
        (s : Store)
        → s secret_path ≡ none
        → s public_path ≡ some public
        → Backed s
        → s secret_tmp ≡ some secret
        → CommitDone (
            at_stage
              (mapped (file_write secret_path) (rename move_secret_fault secret_tmp secret_path s))
              public_renamed
              (λ s3.
                at_stage
                  (sync_parent_directory sync_secret_fault secret_path s3)
                  secret_renamed
                  (λ s4. (committed, s4))))
    unfolding CommitDone
    secret_committed s free new (b, c) tmp =
        let x = rename move_secret_fault secret_tmp secret_path s in
        let f = file_write secret_path in
        let s3 = (mapped f x).1 in
        let y = sync_parent_directory sync_secret_fault secret_path s3 in
        let same =
          sync_parent_directory_store sync_secret_fault secret_path s3 ∙ mapped_store f x in
        let keeps = λ (r : Role) (h : r ≢ secret_tmp_at) (k : r ≢ secret_at).
          ap (λ t. t (path_of paths r)) same
          ∙ rename_keeps move_secret_fault secret_tmp secret_path (path_of paths r) s
              (apart paths distinct r secret_tmp_at h) (apart paths distinct r secret_at k) in
        at_stage_cases CommitDone (mapped f x) public_renamed _
          (λ renamed.
            at_stage_cases CommitDone y secret_renamed _
              (λ synced. (
                ap (λ t. t secret_path) same
                    ∙ rename_made move_secret_fault secret_tmp secret_path secret s
                        (apart paths distinct secret_at secret_tmp_at (λ e. cc)) tmp
                        (mapped_ok f x renamed),
                keeps public_at (λ e. cc) (λ e. cc) ∙ new,
              ))
              (λ e bad. undone_both e y.1 (
                rw (keeps secret_backup_at (λ e. cc) (λ e. cc)) b,
                rw (keeps public_backup_at (λ e. cc) (λ e. cc)) c,
              )))
          (λ e bad.
            let (problem, was) = mapped_err f x e bad in
            let same2 =
              mapped_store f x
              ∙ rename_failed move_secret_fault secret_tmp secret_path s problem was in
            undone_public e s3 (ap (λ t. t secret_path) same2 ∙ free)
              (rw (ap (λ t. t secret_backup) same2) b, rw (ap (λ t. t public_backup) same2) c))

    pub commit_keypair_files-CommitDone :
        (s : Store)
        → Emptied s
        → s secret_tmp ≡ some secret
        → s public_tmp ≡ some public
        → CommitDone (commit_keypair_files paths faults s)
    unfolding commit_keypair_files CommitDone undo_commit
    commit_keypair_files-CommitDone s e secret_new public_new =
        let x = rename move_public_fault public_tmp public_path s in
        let f = file_write public_path in
        let s1 = (mapped f x).1 in
        let y = sync_parent_directory sync_public_fault public_path s1 in
        let same =
          sync_parent_directory_store sync_public_fault public_path s1 ∙ mapped_store f x in
        let keeps = λ (r : Role) (h : r ≢ public_tmp_at) (k : r ≢ public_at).
          ap (λ t. t (path_of paths r)) same
          ∙ rename_keeps move_public_fault public_tmp public_path (path_of paths r) s
              (apart paths distinct r public_tmp_at h) (apart paths distinct r public_at k) in
        let backed : Backed y.1 = (
          rw (keeps secret_backup_at (λ e. cc) (λ e. cc)) e.secret_held,
          rw (keeps public_backup_at (λ e. cc) (λ e. cc)) e.public_held,
        ) in
        let free = keeps secret_at (λ e. cc) (λ e. cc) ∙ e.no_secret in
        at_stage_cases CommitDone (mapped f x) started _
          (λ renamed.
            at_stage_cases CommitDone y public_renamed _
              (λ synced.
                secret_committed y.1 free
                  (ap (λ t. t public_path) same
                    ∙ rename_made move_public_fault public_tmp public_path public s
                        (apart paths distinct public_at public_tmp_at (λ e. cc)) public_new
                        (mapped_ok f x renamed))
                  backed (keeps secret_tmp_at (λ e. cc) (λ e. cc) ∙ secret_new))
              (λ p bad. undone_public p y.1 free backed))
          (λ p bad.
            let (problem, was) = mapped_err f x p bad in
            let same2 =
              mapped_store f x
              ∙ rename_failed move_public_fault public_tmp public_path s problem was in
            cleared paths faults distinct can able old_secret old_public s1 (rw same2 e))

    pub commit_finish-PairDone :
        (store : Store) (c : Commit × Store)
        → store secret_path ≡ old_secret
        → store public_path ≡ old_public
        → CommitDone c
        → PairDone paths store secret public
            (commit_finish paths faults (exists old_secret) (exists old_public) c)
    unfolding commit_finish CommitDone rollback_keypair_commit
    commit_finish-PairDone store (committed, t) a b (new_secret, new_public) =
        let t1 = drop_backup (exists old_secret) remove_secret_backup_fault secret_backup t in
        let keeps = λ (r : Role) (h : r ≢ secret_backup_at) (k : r ≢ public_backup_at).
          drop_backup_keeps (exists old_public) remove_public_backup_fault public_backup
            (path_of paths r) t1 (apart paths distinct r public_backup_at k)
          ∙ drop_backup_keeps (exists old_secret) remove_secret_backup_fault secret_backup
              (path_of paths r) t (apart paths distinct r secret_backup_at h) in
        inl (
          refl,
          keeps secret_at (λ e. cc) (λ e. cc) ∙ new_secret,
          keeps public_at (λ e. cc) (λ e. cc) ∙ new_public,
        )
    commit_finish-PairDone store (failed e, t) a b h =
        let (back, back2) =
          secret_first paths faults distinct can able old_secret old_public
            (undo_commit paths faults e.stage (clear paths faults t)) h in
        inr (refl, back ∙ sym a, back2 ∙ sym b)
