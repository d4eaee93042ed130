-- ===== src/Session/Lockfile.antt =====
-- src/runner.rs: `apply_remote_lockfile`, on the lock file, the copy for review and a staging file.
use cargo_remote.Prelude.{
  [], Bytes, codes, Bool, false, none, ok, ensure, if◌then◌else◌, unwrap_or, is_empty, text_eq,
}
use cargo_remote.Session.{failed, World, Run, ◌>>◌}

module _ (W : World) where
  -- `std::fs::write` to the copy for review
  unfoldable pub write_review : Bytes → Run (Unit {0})
  write_review remote s =
      let r = W.write_file s.events (codes "Cargo.lock.remote") remote in
      (ensure r.0 failed, record s { lockfiles = record s.lockfiles { review = r.1 } })

  unfoldable pub write_staging : Bytes → Run (Unit {0})
  write_staging remote s =
      let r = W.write_file s.events (codes ".cargo-remote-lockfile-tmp") remote in
      (ensure r.0 failed, record s { lockfiles = record s.lockfiles { staging = r.1 } })

  -- `std::fs::rename` of the staging file onto the lock file: all or nothing.
  unfoldable pub rename_staging : Run (Unit {0})
  rename_staging s =
      if W.rename s.events (codes ".cargo-remote-lockfile-tmp") (codes "Cargo.lock")
      then (
        ok tt,
        record s { lockfiles = record s.lockfiles { local = s.lockfiles.staging; staging = none } },
      )
      else (ensure false failed, s)

  unfoldable pub apply_remote_lockfile : Bool → Bytes → Run (Unit {0})
  unfolding write_review write_staging rename_staging
  apply_remote_lockfile update remote s =
      if is_empty remote
      then (ok tt, s)
      else if text_eq (unwrap_or s.lockfiles.local []) remote
      then (ok tt, s)
      else if update
      then (do write_staging remote; rename_staging) s
      else write_review remote s
