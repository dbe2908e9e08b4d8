-- ===== src/Ops/Generate/Aside.antt =====
-- Moving an old file to its backup path and back, of rs/src/ops/generate.rs.
use minisign_rs.Base.{◌≡◌, ◌≢◌, refl, ap, ◌∙◌, true, false, Option, none, some, Bool}
use minisign_rs.Errors.{FilePath, IoError, Error, ok, err, file_write}
use minisign_rs.Ops.Files.{io_ok}
use minisign_rs.Ops.Writing.{Entry, Store, rename, finish, sync_parent_directory}
use minisign_rs.Ops.Writing.Atomic.{remove_file_keeps}
use minisign_rs.Ops.Writing.Calls.{
  rename_made, rename_failed, rename_keeps, rename_gone, rename_found, moves, moves_made,
}
use minisign_rs.Ops.Generate.Pair.{Run, mapped, exists, set_aside, put_back, drop_backup}
use minisign_rs.Ops.Generate.Steps.{
  attempt_cases, mapped_store, mapped_ok, mapped_err, sync_parent_directory_store,
}

-- A backup path holds the file that was moved there, if there was one.
abbrev pub Held : Option Entry → Option Entry → Type 0
Held none backup = Unit {0}
Held (some entry) backup = backup ≡ some entry

-- The file `old`, if it was there, has been moved from a path to its backup.
pub record IsAside (path backup : FilePath) (old : Option Entry) (s t : Store) : Type 0 where
  pub gone : t path ≡ none
  pub held : Held old (t backup)
  pub kept : (q : FilePath) → q ≢ path → q ≢ backup → t q ≡ s q

module _ (backup_fault sync_fault : Option IoError) (path backup : FilePath)
    (undo undo_synced : Store → Store) (s : Store) (distinct : backup ≢ path) where
  module _ (Q : Run → Type 0) (good : (t : Store) → IsAside path backup (s path) s t → Q (ok tt, t))
      (bad : (e : Error) → Q (err e, undo s))
      (late : (e : Error) (t : Store)
        → IsAside path backup (s path) s t
        → exists (s path) ≡ true
        → Q (err e, undo_synced t)) where
    moved-IsAside :
        (entry : Entry)
        → s path ≡ some entry
        → (rename backup_fault path backup s).0 ≡ io_ok tt
        → IsAside path backup
            (s path)
            s
            (sync_parent_directory sync_fault path
              (mapped (file_write path) (rename backup_fault path backup s)).1).1
    moved-IsAside entry here done =
        let x = rename backup_fault path backup s in
        let same =
          sync_parent_directory_store sync_fault path (mapped (file_write path) x).1
          ∙ mapped_store (file_write path) x in
        record {
          gone = ap (λ t. t path) same ∙ rename_gone backup_fault path backup s done;
          held = rw here (
              ap (λ t. t backup) same
              ∙ rename_made backup_fault path backup entry s distinct here done);
          kept = λ q h k. ap (λ t. t q) same ∙ rename_keeps backup_fault path backup q s h k;
        }

    -- The ways in which `set_aside` ends.
    set_aside_from :
        (old : Option Entry)
        → s path ≡ old
        → Q (set_aside (exists old) backup_fault sync_fault path backup undo undo_synced s)
    unfolding set_aside
    set_aside_from none h = good s (record { gone = h; held = rw h tt; kept = λ q a b. refl })
    set_aside_from (some entry) h =
        let x = rename backup_fault path backup s in
        let f = file_write path in
        attempt_cases Q (mapped f x) undo _
          (λ renamed.
            let y = sync_parent_directory sync_fault path (mapped f x).1 in
            let aside = moved-IsAside entry h (mapped_ok f x renamed) in
            attempt_cases Q y undo_synced finish (λ synced. good y.1 aside)
              (λ e was. late e y.1 aside (rw h refl)))
          (λ e was.
            let (problem, failed) = mapped_err f x e was in
            let same = mapped_store f x ∙ rename_failed backup_fault path backup s problem failed in
            rw same (bad e))

    pub set_aside_cases :
        Q (set_aside (exists (s path)) backup_fault sync_fault path backup undo undo_synced s)
    set_aside_cases = set_aside_from (s path) refl

-- An old file that is put back is under its path again.
pub put_back_restores :
    (fault : Option IoError) (path backup : FilePath) (old : Option Entry) (s : Store)
    → path ≢ backup
    → fault ≡ none
    → s path ≡ none
    → Held old (s backup)
    → put_back (exists old) fault backup path s path ≡ old
unfolding put_back moves
put_back_restores fault path backup none s distinct works free held = free
put_back_restores fault path backup (some entry) s distinct works free held =
    ap (λ f. (rename f backup path s).1 path) works
    ∙ ap (λ x. x.1 path) (rename_found none backup path entry s held)
    ∙ moves_made none backup path entry s distinct refl

pub put_back_keeps :
    (had : Bool) (fault : Option IoError) (path backup q : FilePath) (s : Store)
    → q ≢ path
    → q ≢ backup
    → put_back had fault backup path s q ≡ s q
unfolding put_back
put_back_keeps true fault path backup q s h k = rename_keeps fault backup path q s k h
put_back_keeps false fault path backup q s h k = refl

pub drop_backup_keeps :
    (had : Bool) (fault : Option IoError) (backup q : FilePath) (s : Store)
    → q ≢ backup
    → drop_backup had fault backup s q ≡ s q
unfolding drop_backup
drop_backup_keeps true fault backup q s h = remove_file_keeps fault backup q s h
drop_backup_keeps false fault backup q s h = refl
