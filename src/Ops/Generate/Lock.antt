-- ===== src/Ops/Generate/Lock.antt =====
-- The force-overwrite lock of rs/src/ops/generate.rs. Times are in milliseconds. Other processes
-- act between the rounds of the loop, so each round finds its own store.
pub mod Waits
use minisign_rs.Base.{
  ℕ, zero, suc, ◌-◌, ◌*◌, Bool, true, false, ◌&&◌, Option, none, some, leb, if◌then◌else◌,
}
use minisign_rs.Errors.{
  FilePath, IoError, already_exists, Result, ok, err, file_write, other, lock_timed_out,
}
use minisign_rs.Ops.Files.{IoResult, io_ok, io_err}
use minisign_rs.Ops.Writing.{Store, Outcome, create_new, default_permissions}
use minisign_rs.Ops.Generate.Pair.{Run}

abbrev pub force_overwrite_lock_poll_interval : ℕ
force_overwrite_lock_poll_interval = 10

abbrev pub force_overwrite_lock_timeout : ℕ
force_overwrite_lock_timeout = 30000

-- What one round of the loop finds: the store, the faults of its two calls, when the lock file was
-- modified, and the clocks.
pub record Round : Type 0 where
  pub found : Store
  pub open_fault : Option IoError
  pub removal_fault : Option IoError
  pub modified : IoResult ℕ
  pub now : ℕ
  pub elapsed : ℕ

-- A modification time in the future counts as an age of 0.
unfoldable pub lock_is_stale : IoResult ℕ → ℕ → ℕ → Bool
lock_is_stale (io_ok mtime) now stale_age = leb stale_age (now - mtime)
lock_is_stale (io_err e) now stale_age = false

-- How a round ends: the loop is left, a stale lock was removed, or the loop slept.
pub data Turn : Type 0 where
  done : Run → Turn
  removed_stale : Turn
  slept : Turn

abbrev pub works : Option IoError → Bool
works none = true
works (some e) = false

module _ (lock_path : FilePath) where
  unfoldable pub waiting : Round → Store → Turn
  unfolding lock_is_stale
  waiting r store =
      let stale_age = 2 * force_overwrite_lock_timeout in
      if lock_is_stale r.modified r.now stale_age && works r.removal_fault
      then removed_stale
      else if leb force_overwrite_lock_timeout r.elapsed
      then done (err (other (lock_timed_out lock_path)), store)
      else slept

  -- A round by what opening the lock file gave.
  unfoldable pub opened : Round → Outcome → Turn
  unfolding waiting
  opened r (io_ok file, store) = done (ok tt, store)
  opened r (io_err already_exists, store) = waiting r store
  opened r (io_err e, store) = done (err (file_write lock_path e), store)

  unfoldable pub turn : Round → Turn
  unfolding opened create_new
  turn r = opened r (create_new r.open_fault lock_path default_permissions r.found)

  abbrev pub after : Turn → Option Run → Option Run
  after (done x) later = some x
  after removed_stale later = later
  after slept later = later

  -- The loop from round `i` on, for at most `fuel` rounds.
  unfoldable pub acquire_force_overwrite_lock : ℕ → (ℕ → Round) → ℕ → Option Run
  unfolding turn
  acquire_force_overwrite_lock zero rounds i = none
  acquire_force_overwrite_lock (suc fuel) rounds i =
      after (turn (rounds i)) (acquire_force_overwrite_lock fuel rounds (suc i))
