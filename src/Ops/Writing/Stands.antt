-- ===== src/Ops/Writing/Stands.antt =====
-- What stands at the destination after a write of rs/src/ops/file_utils.rs.
use minisign_rs.Base.{◌≡◌, ◌≢◌, sym, ap, ◌∙◌, inl, inr, Bool, true, false, none, some, Bytes}
use minisign_rs.Errors.{FilePath, Result, ok, err, is_err, file_write}
use minisign_rs.Ops.Files.{IoResult}
use minisign_rs.Ops.Writing.{
  Entry, Store, Faults, create_new, write_all, step, finish, exists_or_write, atomic_replace_file,
  reject_symlink, write_forced, write_file, write_secret_key_file, default_permissions,
  secret_key_file_permissions,
}
use minisign_rs.Ops.Writing.Atomic.{step_cases}
use minisign_rs.Ops.Writing.Calls.{create_new_made, write_all_made}
use minisign_rs.Ops.Writing.Replaced.{Done, atomic_replace_file-Done}

-- What an operation that succeeded has written.
abbrev Written : FilePath → Entry → Result (Unit {0}) × Store → Type 0
Written path entry x = x.0 ≡ ok tt → x.1 path ≡ some entry

module _ (faults : Faults) (path tmp_path : FilePath) (store : Store)
    (distinct : path ≢ tmp_path) where
  Done-Written :
      (entry : Entry) (x : Result (Unit {0}) × Store)
      → Done faults path tmp_path store distinct entry x
      → Written path entry x
  Done-Written entry x (inl (bad, old)) h =
      let wrong : false ≡ true = ap is_err (sym h) ∙ bad in absurd cc
  Done-Written entry x (inr new) h = new

  module _ (symlink : IoResult Bool) (contents : Bytes) where
    abbrev file : Entry
    file = record { contents = contents; mode = default_permissions }

    write_forced-Written :
        (check : Result (Unit {0}))
        → Written path file (write_forced faults symlink path tmp_path contents check store)
    unfolding write_forced
    write_forced-Written (err e) h = cc
    write_forced-Written (ok u) h =
        Done-Written file (atomic_replace_file faults path tmp_path contents none store)
          (atomic_replace_file-Done faults path tmp_path store distinct contents none) h

    write_new-Written : Written path file (
        step
          (create_new (faults.create_fault) path default_permissions store)
          (exists_or_write path)
          (λ s. step (write_all (faults.write_fault) path contents s) (file_write path) finish))
    write_new-Written =
        let x = create_new (faults.create_fault) path default_permissions store in
        step_cases (Written path file) x _ _
          (λ made.
            step_cases (Written path file) (write_all (faults.write_fault) path contents x.1) _ _
              (λ wrote good.
                write_all_made (faults.write_fault) path contents _ x.1
                  (create_new_made (faults.create_fault) path default_permissions store made) wrote)
              (λ e bad wrong. cc))
          (λ e bad wrong. cc)

    -- With or without `force`, what `write_file` reports as written stands under the path.
    pub write_file-Written :
        (force : Bool)
        → (write_file faults symlink path tmp_path contents force store).0 ≡ ok tt
        → (write_file faults symlink path tmp_path contents force store).1 path
          ≡ some (record { contents = contents; mode = default_permissions })
    unfolding write_file
    write_file-Written true h = write_forced-Written (reject_symlink path symlink) h
    write_file-Written false h = write_new-Written h

  -- A secret key file that is replaced is as it was after a failure, or is the new one.
  pub write_secret_key_file-Done :
      (contents : Bytes)
      → Done faults path tmp_path store distinct
          (record { contents = contents; mode = secret_key_file_permissions })
          (write_secret_key_file faults path tmp_path contents true store)
  unfolding write_secret_key_file
  write_secret_key_file-Done contents =
      atomic_replace_file-Done faults path tmp_path store distinct contents
        (some secret_key_file_permissions)
