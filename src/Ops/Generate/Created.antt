-- ===== src/Ops/Generate/Created.antt =====
-- Writing a new pair, of rs/src/ops/generate.rs, is all or nothing.
use minisign_rs.Base.{
  ◌≡◌, refl, sym, ap, ◌∙◌, inl, inr, true, false, Bool, none, some, Bytes, Text, utf8,
  if◌then◌else◌,
}
use minisign_rs.Errors.{Error, ok, err, file_write, file_exists}
use minisign_rs.Ops.Writing.{
  Entry, Store, hard_link, remove_file, sync_parent_directory, secret_key_file_permissions,
}
use minisign_rs.Ops.Writing.Atomic.{remove_file_keeps}
use minisign_rs.Ops.Writing.Calls.{hard_link_keeps, hard_link_made, hard_link_failed}
use minisign_rs.Ops.Generate.Pair.{
  PairPaths, PairFaults, Run, mapped, attempt, create_pair, clear, unlink_secret, unlink_both,
  exists, write_keypair_files_create_new,
}
use minisign_rs.Ops.Generate.Steps.{
  secret_at, public_at, public_tmp_at, AreDistinct, apart, PairCreated, sync_parent_directory-ok,
  CanRemove, removed, clear_keeps, temp_entry, attempt_cases, mapped_store, mapped_ok, mapped_err,
  sync_parent_directory_store, temp_files,
}

module _ (paths : PairPaths) (faults : PairFaults) (distinct : AreDistinct paths)
    (can : CanRemove faults) (store : Store) (secret public : Entry) where
  open paths use {secret_path, public_path, secret_tmp, public_tmp}
  open faults use {
    link_secret_fault, link_public_fault, sync_secret_fault, sync_public_fault, remove_secret_fault,
    remove_public_fault,
  }

  abbrev Both : Store → Type 0
  Both s = (s secret_path ≡ store secret_path) × (s public_path ≡ store public_path)

  -- A failure whose undoing left both paths as they were.
  undone :
      (e : Error) (s : Store) → Both s → PairCreated paths faults store secret public (err e, s)
  undone e s (a, b) = inr (refl, a, b)

  cleared : (s : Store) → Both s → Both (clear paths faults s)
  cleared s (a, b) = (
    clear_keeps paths faults distinct secret_at s (λ e. cc) (λ e. cc) ∙ a,
    clear_keeps paths faults distinct public_at s (λ e. cc) (λ e. cc) ∙ b,
  )

  -- The secret file has been linked where there was none.
  unlinked_secret :
      (s : Store)
      → store secret_path ≡ none
      → s public_path ≡ store public_path
      → Both (unlink_secret paths faults s)
  unlinked_secret s a b = cleared (remove_file remove_secret_fault secret_path s) (
    removed remove_secret_fault secret_path s can.0 ∙ sym a,
    remove_file_keeps remove_secret_fault secret_path public_path s
          (apart paths distinct public_at secret_at (λ e. cc))
        ∙ b,
  )

  unlinked-Both :
      (s : Store)
      → store secret_path ≡ none
      → store public_path ≡ none
      → Both (unlink_both paths faults s)
  unlinked-Both s a b =
      unlinked_secret (remove_file remove_public_fault public_path s) a
        (removed remove_public_fault public_path s can.1 ∙ sym b)

  -- From the secret file on, both temporary files being there.
  public_linked :
      (s : Store)
      → store secret_path ≡ none
      → sync_secret_fault ≡ none
      → s secret_path ≡ some secret
      → s public_path ≡ store public_path
      → s public_tmp ≡ some public
      → PairCreated paths faults store secret public (
          attempt
            (mapped (file_write public_path) (hard_link link_public_fault public_tmp public_path s))
            (unlink_secret paths faults)
            (λ s5.
              attempt
                (sync_parent_directory sync_public_fault public_path s5)
                (unlink_both paths faults)
                (λ s6. (ok tt, clear paths faults s6))))
  public_linked s absent synced new old tmp =
      let x = hard_link link_public_fault public_tmp public_path s in
      let f = file_write public_path in
      attempt_cases (PairCreated paths faults store secret public) (mapped f x) _ _
        (λ linked.
          let s5 = (mapped f x).1 in
          let (free, made) =
            hard_link_made link_public_fault public_tmp public_path public s tmp
              (mapped_ok f x linked) in
          let new5 : s5 secret_path ≡ some secret =
            ap (λ t. t secret_path) (mapped_store f x)
            ∙ hard_link_keeps link_public_fault public_tmp public_path secret_path s
                (apart paths distinct secret_at public_at (λ e. cc))
            ∙ new in
          let made5 : s5 public_path ≡ some public =
            ap (λ t. t public_path) (mapped_store f x) ∙ made in
          let y = sync_parent_directory sync_public_fault public_path s5 in
          let same = sync_parent_directory_store sync_public_fault public_path s5 in
          attempt_cases (PairCreated paths faults store secret public) y _ _
            (λ synced2. inl (
              absent,
              sym old ∙ free,
              synced,
              sync_parent_directory-ok sync_public_fault public_path s5 synced2,
              refl,
              clear_keeps paths faults distinct secret_at y.1 (λ e. cc) (λ e. cc)
                  ∙ ap (λ t. t secret_path) same
                  ∙ new5,
              clear_keeps paths faults distinct public_at y.1 (λ e. cc) (λ e. cc)
                  ∙ ap (λ t. t public_path) same
                  ∙ made5,
            ))
            (λ e bad.
              undone e (unlink_both paths faults y.1) (unlinked-Both y.1 absent (sym old ∙ free))))
        (λ e bad.
          let (problem, was) = mapped_err f x e bad in
          undone e (unlink_secret paths faults (mapped f x).1) (
            unlinked_secret (mapped f x).1 absent (
              ap (λ t. t public_path)
                (mapped_store f x
                  ∙ hard_link_failed link_public_fault public_tmp public_path s problem was)
              ∙ old)))

  -- From both temporary files on.
  secret_linked :
      (s : Store)
      → Both s
      → s secret_tmp ≡ some secret
      → s public_tmp ≡ some public
      → PairCreated paths faults store secret public (
          attempt
            (mapped (file_write secret_path) (hard_link link_secret_fault secret_tmp secret_path s))
            (clear paths faults)
            (λ s3.
              attempt
                (sync_parent_directory sync_secret_fault secret_path s3)
                (unlink_secret paths faults)
                (λ s4.
                  attempt
                    (mapped
                      (file_write public_path)
                      (hard_link link_public_fault public_tmp public_path s4))
                    (unlink_secret paths faults)
                    (λ s5.
                      attempt
                        (sync_parent_directory sync_public_fault public_path s5)
                        (unlink_both paths faults)
                        (λ s6. (ok tt, clear paths faults s6))))))
  secret_linked s (a, b) secret_new public_new =
      let x = hard_link link_secret_fault secret_tmp secret_path s in
      let f = file_write secret_path in
      attempt_cases (PairCreated paths faults store secret public) (mapped f x) _ _
        (λ linked.
          let s3 = (mapped f x).1 in
          let (free, made) =
            hard_link_made link_secret_fault secret_tmp secret_path secret s secret_new
              (mapped_ok f x linked) in
          let absent : store secret_path ≡ none = sym a ∙ free in
          let y = sync_parent_directory sync_secret_fault secret_path s3 in
          let same = sync_parent_directory_store sync_secret_fault secret_path s3 in
          let old4 : y.1 public_path ≡ store public_path =
            ap (λ t. t public_path) (same ∙ mapped_store f x)
            ∙ hard_link_keeps link_secret_fault secret_tmp secret_path public_path s
                (apart paths distinct public_at secret_at (λ e. cc))
            ∙ b in
          attempt_cases (PairCreated paths faults store secret public) y _ _
            (λ synced.
              public_linked y.1 absent
                (sync_parent_directory-ok sync_secret_fault secret_path s3 synced)
                (ap (λ t. t secret_path) (same ∙ mapped_store f x) ∙ made) old4
                (ap (λ t. t public_tmp) (same ∙ mapped_store f x)
                  ∙ hard_link_keeps link_secret_fault secret_tmp secret_path public_tmp s
                      (apart paths distinct public_tmp_at secret_at (λ e. cc))
                  ∙ public_new))
            (λ e bad. undone e (unlink_secret paths faults y.1) (unlinked_secret y.1 absent old4)))
        (λ e bad.
          let (problem, was) = mapped_err f x e bad in
          let same =
            mapped_store f x
            ∙ hard_link_failed link_secret_fault secret_tmp secret_path s problem was in
          undone e (clear paths faults (mapped f x).1) (
            cleared (mapped f x).1
              (ap (λ t. t secret_path) same ∙ a, ap (λ t. t public_path) same ∙ b)))

module _ (paths : PairPaths) (faults : PairFaults) (distinct : AreDistinct paths)
    (can : CanRemove faults) (secret_contents public_contents : Bytes) (store : Store) where
  open paths use {secret_path, public_path, secret_tmp, public_tmp}
  open faults use {secret_temp_faults, public_temp_faults}

  -- Behind the first checks, in any store.
  pub create_pair-PairCreated :
      PairCreated paths faults store
        (temp_entry secret_contents (some secret_key_file_permissions))
        (temp_entry public_contents none)
        (create_pair paths faults secret_contents public_contents store)
  unfolding create_pair
  create_pair-PairCreated =
      let secret = temp_entry secret_contents (some secret_key_file_permissions) in
      let public = temp_entry public_contents none in
      temp_files paths faults distinct secret_contents public_contents store _
        (PairCreated paths faults store secret public) (λ e s a b. inr (refl, a, b))
        (λ s2 a b x y. secret_linked paths faults distinct can store secret public s2 (a, b) x y)

refused_or :
    (b : Bool) (e : Error) (paths : PairPaths) (faults : PairFaults) (store : Store)
    (secret public : Entry) (x : Run)
    → PairCreated paths faults store secret public x
    → PairCreated paths faults store secret public (if b then (err e, store) else x)
refused_or true e paths faults store secret public x h = inr (refl, refl, refl)
refused_or false e paths faults store secret public x h = h

module _ (paths : PairPaths) (faults : PairFaults) (distinct : AreDistinct paths)
    (can : CanRemove faults) where
  pub write_keypair_files_create_new-PairCreated :
      (meanwhile : Store → Store) (secret_contents public_contents : Text) (store : Store)
      → PairCreated paths faults
          (meanwhile store)
          (temp_entry (utf8 secret_contents) (some secret_key_file_permissions))
          (temp_entry (utf8 public_contents) none)
          (write_keypair_files_create_new paths faults meanwhile secret_contents public_contents
            store)
  unfolding write_keypair_files_create_new
  write_keypair_files_create_new-PairCreated meanwhile secret_contents public_contents store =
      let secret = temp_entry (utf8 secret_contents) (some secret_key_file_permissions) in
      let public = temp_entry (utf8 public_contents) none in
      let x =
        create_pair paths faults (utf8 secret_contents) (utf8 public_contents) (meanwhile store) in
      refused_or (exists (store paths.secret_path)) (file_exists paths.secret_path) paths faults
        (meanwhile store) secret public _
        (refused_or (exists (store paths.public_path)) (file_exists paths.public_path) paths faults
          (meanwhile store) secret public x
          (create_pair-PairCreated paths faults distinct can (utf8 secret_contents)
            (utf8 public_contents) (meanwhile store)))
