-- ===== src/Tests/LockRuns.antt =====
-- src/main.rs: lock files when process 41 is the only one that is there.
use cargo_remote.Prelude.{ℕ, ◌≡◌, refl, Bool, not, ◌&&◌, ◌==◌, some, none, ok, true, codes}
use cargo_remote.RunLock.{decimal, LockCalls, acquire_run_lock}

abbrev only_41 : Bool → ℕ → Bool
only_41 negative n = not negative && (n == 41)

abbrev all_work : LockCalls
all_work = record { creates = true; written = λ s. s; removes = true; recreates = true }

first_gets_it : acquire_run_lock only_41 all_work 41 none ≡ (ok tt, some (codes "41"))
unfolding acquire_run_lock decimal
first_gets_it = refl
