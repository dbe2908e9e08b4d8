-- ===== src/Ops/Writing/Atomic.antt =====
-- Writing a file is all or nothing at its destination, wherever a call fails.
use minisign_rs.Base.{
  ℕ, ◌≡◌, ◌≢◌, refl, ◌∙◌, inl, inr, true, Option, none, some, [], arith, Bytes, list_eq_iff,
  list_eq_refl, Option-cases,
}
use minisign_rs.Errors.{FilePath, IoError, already_exists, Error, Result, err, is_err}
use minisign_rs.Ops.Files.{io_ok, io_err}
use minisign_rs.Ops.Writing.{
  Entry, Store, Faults, set_entry, Outcome, call, changing, create_new, set_permissions, write_all,
  hard_link, remove_file, step, sync_parent_directory, exists_or_write, create_staged,
  atomic_create_secret_key,
}

pub set_entry_other :
    (path q : FilePath) (e : Option Entry) (s : Store) → q ≢ path → set_entry path e s q ≡ s q
unfolding set_entry
set_entry_other path q e s h = ground (arith, list_eq_iff q path)

pub set_entry_same : (path : FilePath) (e : Option Entry) (s : Store) → set_entry path e s path ≡ e
unfolding set_entry
set_entry_same path e s = rw (list_eq_refl path) refl

-- A property of what an operation leaves, from the two ways that its first call can end.
pub step_cases :
    (Q : Result (Unit {0}) × Store → Type 0) (x : Outcome) (error : IoError → Error)
    (rest : Store → Result (Unit {0}) × Store)
    → (x.0 ≡ io_ok tt → Q (rest x.1))
    → ((e : IoError) → x.0 ≡ io_err e → Q (err (error e), x.1))
    → Q (step x error rest)
step_cases Q (io_ok u, s) error rest good bad = good refl
step_cases Q (io_err e, s) error rest good bad = bad e refl

pub changing_keeps :
    (fault : Option IoError) (path q : FilePath) (e : Option Entry) (s : Store)
    → q ≢ path
    → (changing fault s (set_entry path e s)).1 q ≡ s q
changing_keeps none path q e s h = set_entry_other path q e s h
changing_keeps (some x) path q e s h = refl

pub create_new_keeps :
    (fault : Option IoError) (path q : FilePath) (mode : ℕ) (s : Store)
    → q ≢ path
    → (create_new fault path mode s).1 q ≡ s q
unfolding create_new
create_new_keeps fault path q mode s h = elim (Option-cases (s path)) [
  | inl free ↦
      rw (free, create_new)
        (changing_keeps fault path q (some (record { contents = []; mode = mode })) s h)
  | inr (entry, taken) ↦ rw (taken, create_new) refl
]

pub set_permissions_keeps :
    (fault : Option IoError) (path q : FilePath) (mode : ℕ) (s : Store)
    → q ≢ path
    → (set_permissions fault path mode s).1 q ≡ s q
unfolding set_permissions
set_permissions_keeps fault path q mode s h = elim (Option-cases (s path)) [
  | inl missing ↦ rw (missing, set_permissions) refl
  | inr (entry, found) ↦
      rw (found, set_permissions)
        (changing_keeps fault path q (some (record entry { mode = mode })) s h)
]

pub write_all_keeps :
    (fault : Option (ℕ × IoError)) (path q : FilePath) (bytes : Bytes) (s : Store)
    → q ≢ path
    → (write_all fault path bytes s).1 q ≡ s q
unfolding write_all
write_all_keeps none path q bytes s h = set_entry_other path q _ s h
write_all_keeps (some (n, e)) path q bytes s h = set_entry_other path q _ s h

pub call_keeps : (fault : Option IoError) (q : FilePath) (s : Store) → (call fault s).1 q ≡ s q
call_keeps none q s = refl
call_keeps (some e) q s = refl

pub remove_file_keeps :
    (fault : Option IoError) (path q : FilePath) (s : Store)
    → q ≢ path
    → remove_file fault path s q ≡ s q
unfolding remove_file
remove_file_keeps none path q s h = set_entry_other path q none s h
remove_file_keeps (some e) path q s h = refl

pub hard_link_taken :
    (fault : Option IoError) (from to : FilePath) (entry : Entry) (s : Store)
    → s to ≡ some entry
    → hard_link fault from to s ≡ (io_err already_exists, s)
unfolding hard_link
hard_link_taken fault from to entry s h = rw (h, hard_link) refl

module _ (faults : Faults) (path tmp_path : FilePath) (entry : Entry)
    (distinct : path ≢ tmp_path) where
  open faults use {create_fault, chmod_fault, sync_fault, move_fault, remove_fault, write_fault}

  -- An existing destination is as it was, and the operation has failed.
  abbrev Refused : Result (Unit {0}) × Store → Type 0
  Refused (r, s) = (is_err r ≡ true) × (s path ≡ some entry)

  linked :
      (s : Store)
      → s path ≡ some entry
      → Refused (
          step
            (hard_link move_fault tmp_path path s)
            (exists_or_write path)
            (sync_parent_directory (faults.directory_fault) path))
  linked s here = rw (hard_link_taken move_fault tmp_path path entry s here) (refl, here)

  create_staged-Refused :
      (contents : Bytes) (mode : ℕ) (store : Store)
      → store path ≡ some entry
      → Refused (create_staged faults path tmp_path contents mode store)
  unfolding create_staged
  create_staged-Refused contents mode store here =
      let x0 = create_new create_fault tmp_path mode store in
      let h0 : x0.1 path ≡ some entry =
        create_new_keeps create_fault tmp_path path mode store distinct ∙ here in
      step_cases Refused x0 _ _
        (λ made.
          let x1 = set_permissions chmod_fault tmp_path mode x0.1 in
          let h1 : x1.1 path ≡ some entry =
            set_permissions_keeps chmod_fault tmp_path path mode x0.1 distinct ∙ h0 in
          step_cases Refused x1 _ _
            (λ changed.
              let x2 = write_all write_fault tmp_path contents x1.1 in
              let h2 : x2.1 path ≡ some entry =
                write_all_keeps write_fault tmp_path path contents x1.1 distinct ∙ h1 in
              step_cases Refused x2 _ _
                (λ wrote.
                  let x3 = call sync_fault x2.1 in
                  let h3 : x3.1 path ≡ some entry = call_keeps sync_fault path x2.1 ∙ h2 in
                  step_cases Refused x3 _ _ (λ synced. linked x3.1 h3) (λ e bad. (refl, h3)))
                (λ e bad. (refl, h2)))
            (λ e bad. (refl, h1)))
        (λ e bad. (refl, h0))

  -- Without `force` no secret key is ever overwritten: if a file stands under the path,
  -- `atomic_create_secret_key` fails and leaves that file as it was, whichever calls fail. The
  -- temporary file has another path.
  pub atomic_create_secret_key-keeps :
      (contents : Bytes) (mode : ℕ) (store : Store)
      → store path ≡ some entry
      → (is_err (atomic_create_secret_key faults path tmp_path contents mode store).0 ≡ true)
        × ((atomic_create_secret_key faults path tmp_path contents mode store).1 path ≡ some entry)
  unfolding atomic_create_secret_key
  atomic_create_secret_key-keeps contents mode store here =
      let (failed, kept) = create_staged-Refused contents mode store here in
      (
        failed,
        remove_file_keeps remove_fault tmp_path path
              (create_staged faults path tmp_path contents mode store).1 distinct
            ∙ kept,
      )
