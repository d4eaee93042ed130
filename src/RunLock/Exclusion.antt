-- ===== src/RunLock/Exclusion.antt =====
-- src/main.rs: who can hold the lock of a run.
use cargo_remote.Prelude.{ℕ, ◌≡◌, refl, [], Text, Bool, true, false, some, ok}
use cargo_remote.RunLock.{parse_i32, trim, LockCalls, LockFile, is_alive, acquire_run_lock}

module _ (live : Bool → ℕ → Bool) where
  -- A lock that is taken over from a dead process excludes nobody: after any content that does
  -- not name a living process the first run gets the lock, and every other run that comes while
  -- the first holds it gets it too, when the calls of both work.
  acquire_run_lock_reclaimed :
      (calls : LockCalls) (content : Text) (first second : ℕ)
      → calls.removes ≡ true
      → calls.recreates ≡ true
      → is_alive live content ≡ false
      → (file : LockFile) × (acquire_run_lock live calls first (some content) ≡ (ok tt, file))
        × ((acquire_run_lock live calls second file).0 ≡ ok tt)
  unfolding acquire_run_lock is_alive trim parse_i32
  acquire_run_lock_reclaimed calls content first second removes recreates dead =
      (some [], rw (dead, removes, recreates) refl, rw (removes, recreates) refl)
