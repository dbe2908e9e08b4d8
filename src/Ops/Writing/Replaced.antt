-- ===== src/Ops/Writing/Replaced.antt =====
-- Replacing a file is all or nothing at its destination, wherever a call fails.
use minisign_rs.Base.{
  ℕ, ◌≡◌, ◌≢◌, refl, sym, ap, ◌∙◌, ◌⊎◌, inl, inr, true, false, Option, none, some, [], Bytes,
}
use minisign_rs.Errors.{FilePath, Result, ok, err, is_err, file_write}
use minisign_rs.Ops.Writing.{
  Entry, Store, Faults, call, create_new, set_permissions, write_all, rename, step, finish,
  sync_parent_directory, default_permissions, stage_permissions, replace_staged, replace_finish,
  atomic_replace_file,
}
use minisign_rs.Ops.Writing.Calls.{
  create_new_made, set_permissions_made, write_all_made, rename_found, moves_made, moves_failed,
}
use minisign_rs.Ops.Writing.Atomic.{
  step_cases, create_new_keeps, set_permissions_keeps, write_all_keeps, call_keeps,
  remove_file_keeps,
}

-- The permissions that a replaced file gets.
abbrev pub mode_of : Option ℕ → ℕ
mode_of none = default_permissions
mode_of (some mode) = mode

module _ (faults : Faults) (path tmp_path : FilePath) (store : Store)
    (distinct : path ≢ tmp_path) where
  open faults use {create_fault, chmod_fault, sync_fault, move_fault, remove_fault, write_fault}

  -- A failure that left the destination as it was, or the new file under the path.
  abbrev Staged : Entry → Result (Unit {0}) × Store → Type 0
  Staged entry (r, s) =
      ((is_err r ≡ true) × (s path ≡ store path)) ⊎ ((is_err r ≡ false) × (s path ≡ some entry))

  moved :
      (entry : Entry) (s : Store)
      → s path ≡ store path
      → s tmp_path ≡ some entry
      → Staged entry (step (rename move_fault tmp_path path s) (file_write path) finish)
  moved entry s old new =
      let same = rename_found move_fault tmp_path path entry s new in
      step_cases (Staged entry) (rename move_fault tmp_path path s) (file_write path) finish
        (λ done. inr (
          refl,
          ap (λ x. x.1 path) same
              ∙ moves_made move_fault tmp_path path entry s distinct
                  (ap (λ x. x.0) (sym same) ∙ done),
        ))
        (λ e bad. inl (
          refl,
          ap (λ x. x.1 path) same
              ∙ ap (λ t. t path)
                  (moves_failed move_fault tmp_path path entry s e (ap (λ x. x.0) (sym same) ∙ bad))
              ∙ old,
        ))

  filled :
      (mode : ℕ) (contents : Bytes) (s : Store)
      → s path ≡ store path
      → s tmp_path ≡ some (record { contents = []; mode = mode })
      → Staged
          (record { contents = contents; mode = mode })
          (step (write_all write_fault tmp_path contents s) (file_write tmp_path) (λ s2.
            step
              (call sync_fault s2)
              (file_write tmp_path)
              (λ s3. step (rename move_fault tmp_path path s3) (file_write path) finish)))
  filled mode contents s old empty =
      let entry : Entry = record { contents = contents; mode = mode } in
      let x = write_all write_fault tmp_path contents s in
      let old' : x.1 path ≡ store path =
        write_all_keeps write_fault tmp_path path contents s distinct ∙ old in
      step_cases (Staged entry) x _ _
        (λ wrote.
          let new =
            write_all_made write_fault tmp_path contents (record { contents = []; mode = mode }) s
              empty wrote in
          let y = call sync_fault x.1 in
          let old2 : y.1 path ≡ store path = call_keeps sync_fault path x.1 ∙ old' in
          step_cases (Staged entry) y _ _
            (λ synced. moved entry y.1 old2 (call_keeps sync_fault tmp_path x.1 ∙ new))
            (λ e bad. inl (refl, old2)))
        (λ e bad. inl (refl, old'))

  replace_staged-Staged :
      (contents : Bytes) (unix_mode : Option ℕ)
      → Staged
          (record { contents = contents; mode = mode_of unix_mode })
          (replace_staged faults path tmp_path contents unix_mode store)
  unfolding replace_staged stage_permissions
  replace_staged-Staged contents none =
      let x = create_new create_fault tmp_path default_permissions store in
      let old = create_new_keeps create_fault tmp_path path default_permissions store distinct in
      step_cases (Staged (record { contents = contents; mode = default_permissions })) x _ _
        (λ made.
          filled default_permissions contents x.1 old
            (create_new_made create_fault tmp_path default_permissions store made))
        (λ e bad. inl (refl, old))
  replace_staged-Staged contents (some mode) =
      let entry : Entry = record { contents = contents; mode = mode } in
      let x = create_new create_fault tmp_path mode store in
      let old = create_new_keeps create_fault tmp_path path mode store distinct in
      step_cases (Staged entry) x _ _
        (λ made.
          let y = set_permissions chmod_fault tmp_path mode x.1 in
          let empty = create_new_made create_fault tmp_path mode store made in
          let old' : y.1 path ≡ store path =
            set_permissions_keeps chmod_fault tmp_path path mode x.1 distinct ∙ old in
          step_cases (Staged entry) y _ _
            (λ changed. filled mode contents y.1 old' (
              set_permissions_made chmod_fault tmp_path mode (record { contents = []; mode = mode })
                x.1 empty changed))
            (λ e bad. inl (refl, old')))
        (λ e bad. inl (refl, old))

  -- The operation failed and the destination is as it was, or the new file stands there.
  abbrev pub Done : Entry → Result (Unit {0}) × Store → Type 0
  Done entry x = ((is_err x.0 ≡ true) × (x.1 path ≡ store path)) ⊎ (x.1 path ≡ some entry)

  synced-Done :
      (entry : Entry) (s : Store)
      → s path ≡ some entry
      → Done entry (sync_parent_directory (faults.directory_fault) path s)
  unfolding sync_parent_directory
  synced-Done entry s new =
      let new' = call_keeps (faults.directory_fault) path s ∙ new in
      step_cases (Done entry) (call (faults.directory_fault) s) (file_write path) finish
        (λ done. inr new') (λ e bad. inr new')

  replace_finish-Done :
      (entry : Entry) (x : Result (Unit {0}) × Store)
      → Staged entry x
      → Done entry (replace_finish faults path tmp_path x)
  unfolding replace_finish
  replace_finish-Done entry (ok u, s) (inl (bad, old)) = cc
  replace_finish-Done entry (ok u, s) (inr (good, new)) = synced-Done entry s new
  replace_finish-Done entry (err e, s) (inl (bad, old)) =
      inl (refl, remove_file_keeps remove_fault tmp_path path s distinct ∙ old)
  replace_finish-Done entry (err e, s) (inr (good, new)) = cc

  -- The replacement of a file is all or nothing: whichever calls fail, `atomic_replace_file` either
  -- fails and leaves the destination as it was, or has put the new file there, with all of its
  -- contents and with the permissions that were asked for. The temporary file has another path.
  pub atomic_replace_file-Done :
      (contents : Bytes) (unix_mode : Option ℕ)
      → Done
          (record { contents = contents; mode = mode_of unix_mode })
          (atomic_replace_file faults path tmp_path contents unix_mode store)
  unfolding atomic_replace_file
  atomic_replace_file-Done contents unix_mode =
      replace_finish-Done (record { contents = contents; mode = mode_of unix_mode })
        (replace_staged faults path tmp_path contents unix_mode store)
        (replace_staged-Staged contents unix_mode)
