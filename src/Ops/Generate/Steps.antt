-- ===== src/Ops/Generate/Steps.antt =====
-- What the steps of writing a pair leave, of rs/src/ops/generate.rs.
use minisign_rs.Base.{ℕ, ◌≡◌, ◌≢◌, refl, ap, ◌∙◌, ◌⊎◌, inl, inr, true, Option, none, some, Bytes}
use minisign_rs.Errors.{FilePath, IoError, Error, ok, err, is_err}
use minisign_rs.Ops.Files.{io_ok, io_err}
use minisign_rs.Ops.Writing.{
  Entry, Store, Faults, Outcome, call, create_new, write_all, remove_file, sync_parent_directory,
  secret_key_file_permissions,
}
use minisign_rs.Ops.Writing.Atomic.{
  step_cases, create_new_keeps, write_all_keeps, call_keeps, remove_file_keeps,
}
use minisign_rs.Ops.Writing.Calls.{create_new_made, write_all_made, remove_file_gone}
use minisign_rs.Ops.Generate.Pair.{
  PairPaths, PairFaults, remove_secret_tmp, clear, Run, mapped, attempt, temp_mode, write_temp_file,
  Commit, KeypairCommitStage, at_stage, failed,
}

-- A property of what an operation leaves, from the two ways that its first part can end.
pub attempt_cases :
    (Q : Run → Type 0) (x : Run) (undo : Store → Store) (rest : Store → Run)
    → (x.0 ≡ ok tt → Q (rest x.1))
    → ((e : Error) → x.0 ≡ err e → Q (err e, undo x.1))
    → Q (attempt x undo rest)
attempt_cases Q (ok u, s) undo rest good bad = good refl
attempt_cases Q (err e, s) undo rest good bad = bad e refl

pub at_stage_cases :
    (Q : Commit × Store → Type 0) (x : Run) (stage : KeypairCommitStage)
    (rest : Store → Commit × Store)
    → (x.0 ≡ ok tt → Q (rest x.1))
    → ((e : Error) → x.0 ≡ err e → Q (failed (record { source = e; stage = stage }), x.1))
    → Q (at_stage x stage rest)
at_stage_cases Q (ok u, s) stage rest good bad = good refl
at_stage_cases Q (err e, s) stage rest good bad = bad e refl

pub mapped_store : (f : IoError → Error) (x : Outcome) → (mapped f x).1 ≡ x.1
mapped_store f (io_ok u, s) = refl
mapped_store f (io_err e, s) = refl

pub mapped_ok : (f : IoError → Error) (x : Outcome) → (mapped f x).0 ≡ ok tt → x.0 ≡ io_ok tt
mapped_ok f (io_ok u, s) h = refl
mapped_ok f (io_err e, s) h = cc

pub mapped_err :
    (f : IoError → Error) (x : Outcome) (e : Error)
    → (mapped f x).0 ≡ err e
    → (problem : IoError) × (x.0 ≡ io_err problem)
mapped_err f (io_ok u, s) e h = cc
mapped_err f (io_err problem, s) e h = (problem, refl)

pub sync_parent_directory_store :
    (fault : Option IoError) (path : FilePath) (s : Store)
    → (sync_parent_directory fault path s).1 ≡ s
unfolding sync_parent_directory
sync_parent_directory_store none path s = refl
sync_parent_directory_store (some e) path s = refl

-- The permissions and contents of a temporary file.
abbrev pub temp_entry : Bytes → Option ℕ → Entry
temp_entry contents unix_mode = record { contents = contents; mode = temp_mode unix_mode }

module _ (faults : Faults) (tmp_path : FilePath) (contents : Bytes) (unix_mode : Option ℕ)
    (store : Store) where
  -- Other paths are as they were, and a success has put the file there.
  abbrev Temp : Run → Type 0
  Temp x =
      ((q : FilePath) → q ≢ tmp_path → x.1 q ≡ store q)
      × (x.0 ≡ ok tt → x.1 tmp_path ≡ some (temp_entry contents unix_mode))

  pub write_temp_file_lem : Temp (write_temp_file faults tmp_path contents unix_mode store)
  unfolding write_temp_file
  write_temp_file_lem =
      let x = create_new (faults.create_fault) tmp_path (temp_mode unix_mode) store in
      let kx = λ (q : FilePath) (h : q ≢ tmp_path).
        create_new_keeps (faults.create_fault) tmp_path q (temp_mode unix_mode) store h in
      step_cases Temp x _ _
        (λ made.
          let empty =
            create_new_made (faults.create_fault) tmp_path (temp_mode unix_mode) store made in
          let y = write_all (faults.write_fault) tmp_path contents x.1 in
          let ky = λ (q : FilePath) (h : q ≢ tmp_path).
            write_all_keeps (faults.write_fault) tmp_path q contents x.1 h ∙ kx q h in
          step_cases Temp y _ _
            (λ wrote.
              let full = write_all_made (faults.write_fault) tmp_path contents _ x.1 empty wrote in
              let z = call (faults.sync_fault) y.1 in
              let kz = λ (q : FilePath) (h : q ≢ tmp_path).
                call_keeps (faults.sync_fault) q y.1 ∙ ky q h in
              step_cases Temp z _ _
                (λ synced. (kz, λ h. call_keeps (faults.sync_fault) tmp_path y.1 ∙ full))
                (λ e bad. (kz, λ h. cc)))
            (λ e bad. (ky, λ h. cc)))
        (λ e bad. (kx, λ h. cc))

-- The paths of a run, by what they are for.
pub data Role : Type 0 where
  secret_at public_at secret_tmp_at public_tmp_at secret_backup_at public_backup_at lock_at : Role

abbrev pub path_of : PairPaths → Role → FilePath
path_of paths secret_at = paths.secret_path
path_of paths public_at = paths.public_path
path_of paths secret_tmp_at = paths.secret_tmp
path_of paths public_tmp_at = paths.public_tmp
path_of paths secret_backup_at = paths.secret_backup
path_of paths public_backup_at = paths.public_backup
path_of paths lock_at = paths.lock_path

-- No two of the paths of a run are the same.
abbrev pub AreDistinct : PairPaths → Type 0
AreDistinct paths = (a b : Role) → path_of paths a ≡ path_of paths b → a ≡ b

pub apart :
    (paths : PairPaths) (distinct : AreDistinct paths) (a b : Role)
    → a ≢ b
    → path_of paths a ≢ path_of paths b
apart paths distinct a b h e = h (distinct a b e)

-- What writing a pair promises: it succeeded and both files are there, or it failed and both
-- paths have what they had.
abbrev pub PairDone : PairPaths → Store → Entry → Entry → Run → Type 0
PairDone paths store secret public x =
    ((x.0 ≡ ok tt) × (x.1 paths.secret_path ≡ some secret) × (x.1 paths.public_path ≡ some public))
    ⊎ ((is_err x.0 ≡ true)
        × (x.1 paths.secret_path ≡ store paths.secret_path)
        × (x.1 paths.public_path ≡ store paths.public_path))

-- What writing a new pair promises: besides, where it succeeded there was no file at either path,
-- and the calls that sync the directories succeeded.
abbrev pub PairCreated : PairPaths → PairFaults → Store → Entry → Entry → Run → Type 0
PairCreated paths faults store secret public x =
    ((store paths.secret_path ≡ none)
      × (store paths.public_path ≡ none)
      × (faults.sync_secret_fault ≡ none)
      × (faults.sync_public_fault ≡ none)
      × (x.0 ≡ ok tt)
      × (x.1 paths.secret_path ≡ some secret)
      × (x.1 paths.public_path ≡ some public))
    ⊎ ((is_err x.0 ≡ true)
        × (x.1 paths.secret_path ≡ store paths.secret_path)
        × (x.1 paths.public_path ≡ store paths.public_path))

pub PairCreated-PairDone :
    (paths : PairPaths) (faults : PairFaults) (store : Store) (secret public : Entry) (x : Run)
    → PairCreated paths faults store secret public x
    → PairDone paths store secret public x
PairCreated-PairDone paths faults store secret public x (inl (a, b, c, d, e, f, g)) = inl (e, f, g)
PairCreated-PairDone paths faults store secret public x (inr old) = inr old

pub sync_parent_directory-ok :
    (fault : Option IoError) (path : FilePath) (s : Store)
    → (sync_parent_directory fault path s).0 ≡ ok tt
    → fault ≡ none
unfolding sync_parent_directory
sync_parent_directory-ok none path s h = refl
sync_parent_directory-ok (some e) path s h = absurd cc

-- The removals by which a failed run is undone do not fail.
abbrev pub CanRemove : PairFaults → Type 0
CanRemove faults = (faults.remove_secret_fault ≡ none) × (faults.remove_public_fault ≡ none)

pub removed :
    (fault : Option IoError) (path : FilePath) (s : Store)
    → fault ≡ none
    → remove_file fault path s path ≡ none
removed fault path s h = ap (λ f. remove_file f path s path) h ∙ remove_file_gone path s

module _ (paths : PairPaths) (faults : PairFaults) (distinct : AreDistinct paths) where
  -- Removing the temporary files leaves the others.
  pub clear_keeps :
      (r : Role) (s : Store)
      → r ≢ secret_tmp_at
      → r ≢ public_tmp_at
      → clear paths faults s (path_of paths r) ≡ s (path_of paths r)
  clear_keeps r s h k =
      remove_file_keeps (faults.remove_public_tmp_fault) (paths.public_tmp) (path_of paths r) _
        (apart paths distinct r public_tmp_at k)
      ∙ remove_file_keeps (faults.remove_secret_tmp_fault) (paths.secret_tmp) (path_of paths r) s
          (apart paths distinct r secret_tmp_at h)

  pub remove_secret_tmp_keeps :
      (r : Role) (s : Store)
      → r ≢ secret_tmp_at
      → remove_secret_tmp paths faults s (path_of paths r) ≡ s (path_of paths r)
  remove_secret_tmp_keeps r s h =
      remove_file_keeps (faults.remove_secret_tmp_fault) (paths.secret_tmp) (path_of paths r) s
        (apart paths distinct r secret_tmp_at h)

module _ (paths : PairPaths) (faults : PairFaults) (distinct : AreDistinct paths)
    (secret_contents public_contents : Bytes) (store : Store) (rest : Store → Run) where
  open paths use {secret_path, public_path, secret_tmp, public_tmp}
  open faults use {secret_temp_faults, public_temp_faults}

  abbrev secret : Entry
  secret = temp_entry secret_contents (some secret_key_file_permissions)

  abbrev public : Entry
  public = temp_entry public_contents none

  -- Both ways of writing a pair start with the temporary files, and a failure there leaves both
  -- paths as they were.
  pub temp_files :
      (P : Run → Type 0)
      → ((e : Error) (s : Store)
          → s secret_path ≡ store secret_path
          → s public_path ≡ store public_path
          → P (err e, s))
      → ((s : Store)
          → s secret_path ≡ store secret_path
          → s public_path ≡ store public_path
          → s secret_tmp ≡ some secret
          → s public_tmp ≡ some public
          → P (rest s))
      → P (
          attempt
            (write_temp_file secret_temp_faults secret_tmp secret_contents
              (some secret_key_file_permissions)
              store)
            (λ s. s)
            (λ s1.
              attempt
                (write_temp_file public_temp_faults public_tmp public_contents none s1)
                (remove_secret_tmp paths faults)
                rest))
  temp_files P bad good =
      let x =
        write_temp_file secret_temp_faults secret_tmp secret_contents
          (some secret_key_file_permissions) store in
      let (kx, mx) =
        write_temp_file_lem secret_temp_faults secret_tmp secret_contents
          (some secret_key_file_permissions) store in
      let a = kx secret_path (apart paths distinct secret_at secret_tmp_at (λ e. cc)) in
      let b = kx public_path (apart paths distinct public_at secret_tmp_at (λ e. cc)) in
      attempt_cases P x _ _
        (λ wrote.
          let y = write_temp_file public_temp_faults public_tmp public_contents none x.1 in
          let (ky, my) =
            write_temp_file_lem public_temp_faults public_tmp public_contents none x.1 in
          let a2 = ky secret_path (apart paths distinct secret_at public_tmp_at (λ e. cc)) ∙ a in
          let b2 = ky public_path (apart paths distinct public_at public_tmp_at (λ e. cc)) ∙ b in
          attempt_cases P y _ rest
            (λ wrote2.
              good y.1 a2 b2
                (ky secret_tmp (apart paths distinct secret_tmp_at public_tmp_at (λ e. cc))
                  ∙ mx wrote)
                (my wrote2))
            (λ e failed.
              bad e (remove_secret_tmp paths faults y.1)
                (remove_secret_tmp_keeps paths faults distinct secret_at y.1 (λ e. cc) ∙ a2)
                (remove_secret_tmp_keeps paths faults distinct public_at y.1 (λ e. cc) ∙ b2)))
        (λ e failed. bad e x.1 a b)
