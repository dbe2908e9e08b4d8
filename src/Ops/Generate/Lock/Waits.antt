-- ===== src/Ops/Generate/Lock/Waits.antt =====
-- The loop for the force-overwrite lock of rs/src/ops/generate.rs ends, and what it ends with.
use minisign_rs.Base.{
  ℕ, zero, suc, ◌+◌, ◌*◌, ◌≤◌, ◌<◌, ◌≡◌, refl, sym, ap, ◌∙◌, Option, none, some, arith, [],
  Option-cases, inl, inr,
}
use minisign_rs.Errors.{
  FilePath, IoError, not_found, already_exists, interrupted_call, other_kind, ok,
}
use minisign_rs.Ops.Files.{io_ok, io_err}
use minisign_rs.Ops.Writing.{Store, Outcome, create_new, set_entry, changing, default_permissions}
use minisign_rs.Ops.Writing.Calls.{create_new_free, create_new_taken}
use minisign_rs.Ops.Generate.Pair.{Run}
use minisign_rs.Ops.Generate.Lock.{
  Round, Turn, done, removed_stale, slept, opened, waiting, turn, after,
  acquire_force_overwrite_lock, force_overwrite_lock_poll_interval, force_overwrite_lock_timeout,
}

-- The rounds that remove a stale lock.
abbrev pub one_if_removed : Turn → ℕ
one_if_removed (done x) = 0
one_if_removed removed_stale = 1
one_if_removed slept = 0

module _ (lock_path : FilePath) (rounds : ℕ → Round) where
  -- How many of the `n` rounds from round `i` on remove a stale lock.
  unfoldable pub removals : ℕ → ℕ → ℕ
  removals zero i = 0
  removals (suc n) i = one_if_removed (turn lock_path (rounds i)) + removals n (suc i)

  -- The clock does not run backwards, and a sleep takes at least as long as it was asked to.
  pub record IsClock : Type 0 where
    pub monotone : (i : ℕ) → (rounds i).elapsed ≤ (rounds (suc i)).elapsed
    pub sleeps :
        (i : ℕ)
        → turn lock_path (rounds i) ≡ slept
        → (rounds i).elapsed + force_overwrite_lock_poll_interval ≤ (rounds (suc i)).elapsed

waiting_slept :
    (lock_path : FilePath) (r : Round) (s : Store)
    → waiting lock_path r s ≡ slept
    → r.elapsed < force_overwrite_lock_timeout
unfolding waiting
waiting_slept lock_path r s h = ground arith

opened_slept :
    (lock_path : FilePath) (r : Round) (x : Outcome)
    → opened lock_path r x ≡ slept
    → r.elapsed < force_overwrite_lock_timeout
unfolding opened
opened_slept lock_path r (io_ok file, s) h = cc
opened_slept lock_path r (io_err not_found, s) h = cc
opened_slept lock_path r (io_err already_exists, s) h = waiting_slept lock_path r s h
opened_slept lock_path r (io_err interrupted_call, s) h = cc
opened_slept lock_path r (io_err other_kind, s) h = cc

turn_slept :
    (lock_path : FilePath) (r : Round)
    → turn lock_path r ≡ slept
    → r.elapsed < force_overwrite_lock_timeout
unfolding turn
turn_slept lock_path r h =
    opened_slept lock_path r (create_new r.open_fault lock_path default_permissions r.found) h

module _ (lock_path : FilePath) (rounds : ℕ → Round) (clock : IsClock lock_path rounds) where
  -- A budget of `k` removals and `m` sleeps from round `i` on, and the rounds that it needs.
  abbrev Enough : ℕ → ℕ → Type 0
  Enough fuel i =
      (k m : ℕ)
      → k + m < fuel
      → removals lock_path rounds fuel i ≤ k
      → force_overwrite_lock_timeout ≤ (rounds i).elapsed + m * force_overwrite_lock_poll_interval
      → (x : Run) × (acquire_force_overwrite_lock lock_path fuel rounds i ≡ some x)

  Enough-after :
      (t : Turn) (fuel i : ℕ)
      → Enough fuel (suc i)
      → turn lock_path (rounds i) ≡ t
      → (k m : ℕ) → k + m < suc fuel
      → one_if_removed t + removals lock_path rounds fuel (suc i) ≤ k
      → force_overwrite_lock_timeout ≤ (rounds i).elapsed + m * force_overwrite_lock_poll_interval
      → (x : Run) × (after lock_path t (acquire_force_overwrite_lock lock_path fuel rounds (suc i))
          ≡ some x)
  Enough-after (done x) fuel i rest e k m a b c = (x, refl)
  Enough-after removed_stale fuel i rest e zero m a b c = absurd (omega arith)
  Enough-after removed_stale fuel i rest e (suc k) m a b c =
      rest k m (omega arith) (omega arith) (omega (arith, clock.monotone i))
  Enough-after slept fuel i rest e k zero a b c =
      let early = turn_slept lock_path (rounds i) e in absurd (omega arith)
  Enough-after slept fuel i rest e k (suc m) a b c =
      rest k m (omega arith) (omega arith) (omega (arith, clock.sleeps i e))

  enough : (fuel i : ℕ) → Enough fuel i
  unfolding acquire_force_overwrite_lock removals
  enough zero i k m a b c = absurd (omega arith)
  enough (suc fuel) i k m a b c =
      Enough-after (turn lock_path (rounds i)) fuel i (enough fuel (suc i)) refl k m a b c

  -- The wait for the lock ends: if a stale lock is removed at most `k` times, then the loop is
  -- left within `k + 3001` rounds, since a sleep takes at least ten milliseconds and none starts
  -- after thirty seconds. The clock does not run backwards.
  pub acquire_force_overwrite_lock-ends :
      (k fuel : ℕ)
      → k + 3000 < fuel
      → removals lock_path rounds fuel 0 ≤ k
      → (x : Run) × (acquire_force_overwrite_lock lock_path fuel rounds 0 ≡ some x)
  acquire_force_overwrite_lock-ends k fuel a b = enough fuel 0 k 3000 a b (omega arith)

-- The lock was free in the store `s`, and the store `t` is `s` with the lock file added.
pub record IsTaken (lock_path : FilePath) (s t : Store) : Type 0 where
  pub free : s lock_path ≡ none
  pub taken :
      t ≡ set_entry lock_path (some (record { contents = []; mode = default_permissions })) s

module _ (lock_path : FilePath) where
  opened_ok :
      (r : Round) (x : Outcome) (s : Store)
      → opened lock_path r x ≡ done (ok tt, s)
      → x ≡ (io_ok tt, s)
  unfolding opened waiting
  opened_ok r (io_ok file, t) s h = cc
  opened_ok r (io_err not_found, t) s h = cc
  opened_ok r (io_err already_exists, t) s h = absurd (ground arith)
  opened_ok r (io_err interrupted_call, t) s h = cc
  opened_ok r (io_err other_kind, t) s h = cc

  create_new_ok :
      (fault : Option IoError) (s t : Store)
      → create_new fault lock_path default_permissions s ≡ (io_ok tt, t)
      → IsTaken lock_path s t
  create_new_ok fault s t h = elim (Option-cases (s lock_path)) [
    | inl free ↦
        made fault s t free (sym (create_new_free fault lock_path default_permissions s free) ∙ h)
    | inr (entry, held) ↦
        let same = create_new_taken fault lock_path default_permissions entry s held in
        let failed : ◌≡◌ {A = Outcome} (io_err already_exists, s) (io_ok tt, t) = sym same ∙ h in
        absurd cc
  ]
    where
      made :
          (fault : Option IoError) (s t : Store)
          → s lock_path ≡ none
          → changing fault s
              (set_entry lock_path (some (record { contents = []; mode = default_permissions })) s)
            ≡ (io_ok tt, t)
          → IsTaken lock_path s t
      made none s t free h = record { free = free; taken = sym (ap (λ x. x.1) h) }
      made (some e) s t free h = cc

  module _ (rounds : ℕ → Round) where
    abbrev Taken : Store → Type 0
    Taken t = (j : ℕ) × IsTaken lock_path (rounds j).found t

    Taken-after :
        (a : Turn) (rest : Option Run) (i : ℕ) (t : Store)
        → turn lock_path (rounds i) ≡ a
        → (rest ≡ some (ok tt, t) → Taken t)
        → after lock_path a rest ≡ some (ok tt, t)
        → Taken t
    unfolding turn
    Taken-after (done x) rest i t e later h = (
      i,
      create_new_ok ((rounds i).open_fault) ((rounds i).found) t
          (opened_ok (rounds i) _ t (e ∙ cc)),
    )
    Taken-after removed_stale rest i t e later h = later h
    Taken-after slept rest i t e later h = later h

    -- Whoever is given the lock has made the lock file in a store that had none, and has changed
    -- nothing else there.
    pub acquire_force_overwrite_lock-IsTaken :
        (fuel i : ℕ) (t : Store)
        → acquire_force_overwrite_lock lock_path fuel rounds i ≡ some (ok tt, t)
        → (j : ℕ) × IsTaken lock_path (rounds j).found t
    unfolding acquire_force_overwrite_lock
    acquire_force_overwrite_lock-IsTaken zero i t h = cc
    acquire_force_overwrite_lock-IsTaken (suc fuel) i t h =
        Taken-after (turn lock_path (rounds i)) _ i t refl
          (acquire_force_overwrite_lock-IsTaken fuel (suc i) t) h
