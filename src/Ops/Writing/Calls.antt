-- ===== src/Ops/Writing/Calls.antt =====
-- What each call of the system leaves at the paths it works on, of rs/src/ops/file_utils.rs.
use minisign_rs.Base.{
  ℕ, ◌≡◌, ◌≢◌, refl, sym, ap, ◌∙◌, inl, inr, Option, none, some, [], Bytes, Option-cases,
}
use minisign_rs.Errors.{FilePath, IoError, already_exists}
use minisign_rs.Ops.Files.{io_ok, io_err}
use minisign_rs.Ops.Writing.{
  Outcome, Entry, Store, set_entry, changing, create_new, set_permissions, with_contents, write_all,
  rename, hard_link, remove_file,
}
use minisign_rs.Ops.Writing.Atomic.{
  set_entry_other, set_entry_same, changing_keeps, hard_link_taken,
}

-- What a call that succeeded has done.
changing_made :
    (fault : Option IoError) (path : FilePath) (e : Option Entry) (s : Store)
    → (changing fault s (set_entry path e s)).0 ≡ io_ok tt
    → (changing fault s (set_entry path e s)).1 path ≡ e
changing_made none path e s h = set_entry_same path e s
changing_made (some x) path e s h = cc

pub create_new_free :
    (fault : Option IoError) (path : FilePath) (mode : ℕ) (s : Store)
    → s path ≡ none
    → create_new fault path mode s
      ≡ changing fault s (set_entry path (some (record { contents = []; mode = mode })) s)
unfolding create_new
create_new_free fault path mode s h = rw (h, create_new) refl

pub create_new_taken :
    (fault : Option IoError) (path : FilePath) (mode : ℕ) (entry : Entry) (s : Store)
    → s path ≡ some entry
    → create_new fault path mode s ≡ (io_err already_exists, s)
unfolding create_new
create_new_taken fault path mode entry s h = rw (h, create_new) refl

set_permissions_found :
    (fault : Option IoError) (path : FilePath) (mode : ℕ) (entry : Entry) (s : Store)
    → s path ≡ some entry
    → set_permissions fault path mode s
      ≡ changing fault s (set_entry path (some (record entry { mode = mode })) s)
unfolding set_permissions
set_permissions_found fault path mode entry s h = rw (h, set_permissions) refl

pub create_new_made :
    (fault : Option IoError) (path : FilePath) (mode : ℕ) (s : Store)
    → (create_new fault path mode s).0 ≡ io_ok tt
    → (create_new fault path mode s).1 path ≡ some (record { contents = []; mode = mode })
create_new_made fault path mode s h = elim (Option-cases (s path)) [
  | inl free ↦
      let same = create_new_free fault path mode s free in
      ap (λ x. x.1 path) same ∙ changing_made fault path _ s (ap (λ x. x.0) (sym same) ∙ h)
  | inr (entry, taken) ↦
      let same = create_new_taken fault path mode entry s taken in
      let failed : io_err already_exists ≡ io_ok tt = ap (λ x. x.0) (sym same) ∙ h in absurd cc
]

pub set_permissions_made :
    (fault : Option IoError) (path : FilePath) (mode : ℕ) (entry : Entry) (s : Store)
    → s path ≡ some entry
    → (set_permissions fault path mode s).0 ≡ io_ok tt
    → (set_permissions fault path mode s).1 path ≡ some (record entry { mode = mode })
set_permissions_made fault path mode entry s here h =
    let same = set_permissions_found fault path mode entry s here in
    ap (λ x. x.1 path) same ∙ changing_made fault path _ s (ap (λ x. x.0) (sym same) ∙ h)

pub write_all_made :
    (fault : Option (ℕ × IoError)) (path : FilePath) (bytes : Bytes) (entry : Entry) (s : Store)
    → s path ≡ some entry
    → (write_all fault path bytes s).0 ≡ io_ok tt
    → (write_all fault path bytes s).1 path ≡ some (record entry { contents = bytes })
unfolding write_all
write_all_made none path bytes entry s here h =
    set_entry_same path (with_contents (s path) bytes) s ∙ ap (λ x. with_contents x bytes) here
write_all_made (some (n, e)) path bytes entry s here h = cc

unfoldable pub moves : Option IoError → FilePath → FilePath → Entry → Store → Outcome
moves fault from to entry s = changing fault s (set_entry from none (set_entry to (some entry) s))

pub rename_found :
    (fault : Option IoError) (from to : FilePath) (entry : Entry) (s : Store)
    → s from ≡ some entry
    → rename fault from to s ≡ moves fault from to entry s
unfolding rename moves
rename_found fault from to entry s h = rw (h, rename) refl

pub moves_made :
    (fault : Option IoError) (from to : FilePath) (entry : Entry) (s : Store)
    → to ≢ from
    → (moves fault from to entry s).0 ≡ io_ok tt
    → (moves fault from to entry s).1 to ≡ some entry
unfolding moves
moves_made none from to entry s distinct h =
    set_entry_other from to none (set_entry to (some entry) s) distinct
    ∙ set_entry_same to (some entry) s
moves_made (some e) from to entry s distinct h = cc

pub moves_failed :
    (fault : Option IoError) (from to : FilePath) (entry : Entry) (s : Store) (e : IoError)
    → (moves fault from to entry s).0 ≡ io_err e
    → (moves fault from to entry s).1 ≡ s
unfolding moves
moves_failed none from to entry s e h = cc
moves_failed (some x) from to entry s e h = refl

-- The same of a call that failed, and of the paths that a call does not work on.
pub rename_made :
    (fault : Option IoError) (from to : FilePath) (entry : Entry) (s : Store)
    → to ≢ from
    → s from ≡ some entry
    → (rename fault from to s).0 ≡ io_ok tt
    → (rename fault from to s).1 to ≡ some entry
rename_made fault from to entry s distinct here h =
    let same = rename_found fault from to entry s here in
    ap (λ x. x.1 to) same ∙ moves_made fault from to entry s distinct (ap (λ x. x.0) (sym same) ∙ h)

pub rename_failed :
    (fault : Option IoError) (from to : FilePath) (s : Store) (e : IoError)
    → (rename fault from to s).0 ≡ io_err e
    → (rename fault from to s).1 ≡ s
unfolding rename
rename_failed fault from to s e h = elim (Option-cases (s from)) [
  | inl missing ↦ rw (missing, rename) refl
  | inr (entry, found) ↦
      let same = rename_found fault from to entry s found in
      ap (λ x. x.1) same ∙ moves_failed fault from to entry s e (ap (λ x. x.0) (sym same) ∙ h)
]

moves_gone :
    (fault : Option IoError) (from to : FilePath) (entry : Entry) (s : Store)
    → (moves fault from to entry s).0 ≡ io_ok tt
    → (moves fault from to entry s).1 from ≡ none
unfolding moves
moves_gone none from to entry s h = set_entry_same from none (set_entry to (some entry) s)
moves_gone (some e) from to entry s h = cc

-- A rename that succeeded leaves nothing under the old path.
pub rename_gone :
    (fault : Option IoError) (from to : FilePath) (s : Store)
    → (rename fault from to s).0 ≡ io_ok tt
    → (rename fault from to s).1 from ≡ none
unfolding rename
rename_gone fault from to s h = elim (Option-cases (s from)) [
  | inl missing ↦ rw (missing, rename) missing
  | inr (entry, found) ↦
      let same = rename_found fault from to entry s found in
      ap (λ x. x.1 from) same ∙ moves_gone fault from to entry s (ap (λ x. x.0) (sym same) ∙ h)
]

moves_keeps :
    (fault : Option IoError) (from to q : FilePath) (entry : Entry) (s : Store)
    → q ≢ from
    → q ≢ to
    → (moves fault from to entry s).1 q ≡ s q
unfolding moves
moves_keeps none from to q entry s h k =
    set_entry_other from q none (set_entry to (some entry) s) h
    ∙ set_entry_other to q (some entry) s k
moves_keeps (some e) from to q entry s h k = refl

pub rename_keeps :
    (fault : Option IoError) (from to q : FilePath) (s : Store)
    → q ≢ from
    → q ≢ to
    → (rename fault from to s).1 q ≡ s q
unfolding rename
rename_keeps fault from to q s h k = elim (Option-cases (s from)) [
  | inl missing ↦ rw (missing, rename) refl
  | inr (entry, found) ↦
      ap (λ x. x.1 q) (rename_found fault from to entry s found)
      ∙ moves_keeps fault from to q entry s h k
]

-- A hard link is made only where there was nothing.
hard_link_free :
    (fault : Option IoError) (from to : FilePath) (entry : Entry) (s : Store)
    → s to ≡ none
    → s from ≡ some entry
    → hard_link fault from to s ≡ changing fault s (set_entry to (some entry) s)
unfolding hard_link
hard_link_free fault from to entry s h k = rw (h, hard_link) (rw (k, hard_link) refl)

pub hard_link_keeps :
    (fault : Option IoError) (from to q : FilePath) (s : Store)
    → q ≢ to
    → (hard_link fault from to s).1 q ≡ s q
unfolding hard_link
hard_link_keeps fault from to q s h = elim (Option-cases (s to)) [
  | inr (old, taken) ↦ ap (λ x. x.1 q) (hard_link_taken fault from to old s taken)
  | inl free ↦ elim (Option-cases (s from)) [
    | inl missing ↦ rw (free, hard_link) (rw (missing, hard_link) refl)
    | inr (entry, found) ↦
        ap (λ x. x.1 q) (hard_link_free fault from to entry s free found)
        ∙ changing_keeps fault to q (some entry) s h
  ]
]

-- A link that succeeded was made where there was nothing.
pub hard_link_made :
    (fault : Option IoError) (from to : FilePath) (entry : Entry) (s : Store)
    → s from ≡ some entry
    → (hard_link fault from to s).0 ≡ io_ok tt
    → (s to ≡ none) × ((hard_link fault from to s).1 to ≡ some entry)
hard_link_made fault from to entry s found h = elim (Option-cases (s to)) [
  | inr (old, taken) ↦
      let same = hard_link_taken fault from to old s taken in
      let failed : io_err already_exists ≡ io_ok tt = ap (λ x. x.0) (sym same) ∙ h in absurd cc
  | inl free ↦
      let same = hard_link_free fault from to entry s free found in
      (
        free,
        ap (λ x. x.1 to) same
            ∙ changing_made fault to (some entry) s (ap (λ x. x.0) (sym same) ∙ h),
      )
]

changing_failed :
    (fault : Option IoError) (s t : Store) (e : IoError)
    → (changing fault s t).0 ≡ io_err e
    → (changing fault s t).1 ≡ s
changing_failed none s t e h = cc
changing_failed (some x) s t e h = refl

pub hard_link_failed :
    (fault : Option IoError) (from to : FilePath) (s : Store) (e : IoError)
    → (hard_link fault from to s).0 ≡ io_err e
    → (hard_link fault from to s).1 ≡ s
unfolding hard_link
hard_link_failed fault from to s e h = elim (Option-cases (s to)) [
  | inr (old, taken) ↦ ap (λ x. x.1) (hard_link_taken fault from to old s taken)
  | inl free ↦ elim (Option-cases (s from)) [
    | inl missing ↦ rw (free, hard_link) (rw (missing, hard_link) refl)
    | inr (entry, found) ↦
        let same = hard_link_free fault from to entry s free found in
        ap (λ x. x.1) same
        ∙ changing_failed fault s (set_entry to (some entry) s) e (ap (λ x. x.0) (sym same) ∙ h)
  ]
]

pub remove_file_gone : (path : FilePath) (s : Store) → remove_file none path s path ≡ none
unfolding remove_file
remove_file_gone path s = set_entry_same path none s
