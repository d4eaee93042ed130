-- ===== src/Agent/Storing.antt =====
-- src/agent.rs: `tmp_path_for` and `write_file_atomic`, over any file system.
use cargo_remote.Prelude.{
  ℕ, ◌^◌, ◌%◌, min, [], ◌∷◌, ◌++◌, Text, codes, Bytes, Option, none, some, Result, ok, err,
}
use cargo_remote.Agent.Disk.{
  FilePath, create_new, write_all, set_permissions, set_times, remove_file, Disk, AgentError, Act,
  ◌>>◌, call,
}

-- `i64`, which a time from the wire is
pub data ℤ : Type 0 where
  pos negsuc : ℕ → ℤ

-- `mtime.clamp(0, now)`
unfoldable pub clamp_time : ℤ → ℕ → ℕ
clamp_time (pos t) now = min t now
clamp_time (negsuc t) now = 0

-- `path.parent()` and `path.file_name()` of a path that has them.
unfoldable pub split_last : FilePath → Option (FilePath × Text)
split_last [] = none
split_last (w ∷ []) = some ([], w)
split_last (w ∷ v ∷ p) =
    let rest = split_last (v ∷ p) in
    elim rest [ none ↦ none | some (dir, name) ↦ some (w ∷ dir, name) ]

-- The name of the staging file. `tag` is `{pid}-{seq}-{nanos:x}`.
unfoldable pub tmp_name : Text → Text → Text
tmp_name name tag = codes "." ++ (name ++ (codes ".tmp-" ++ tag))

module _ (D : Disk) where
  -- The closure, after the staging file has been made.
  unfoldable pub fill_file : FilePath → Bytes → ℕ → ℤ → Act D.State (Unit {0})
  unfolding clamp_time
  fill_file tmp content mode mtime = do
    call (D.perform (write_all content) tmp)
    call (D.perform (set_permissions (mode % 2 ^ 9)) tmp)
    (λ s. call (D.perform (set_times (clamp_time mtime (D.now s))) tmp) s)

  unfoldable pub stage_file : FilePath → Bytes → ℕ → ℤ → Act D.State (Unit {0})
  unfolding fill_file
  stage_file tmp content mode mtime = do
    call (D.perform create_new tmp)
    fill_file tmp content mode mtime

  -- `if res.is_err() { remove_file(&tmp) }; res`
  unfoldable pub clean_tmp :
      FilePath → Result AgentError (Unit {0}) × D.State → Result AgentError (Unit {0}) × D.State
  clean_tmp tmp (ok u, s) = (ok u, s)
  clean_tmp tmp (err e, s) = (err e, (D.perform remove_file tmp s).1)

  -- Staging, renaming and cleaning up, next to the file.
  unfoldable pub replace_file : FilePath → FilePath → Bytes → ℕ → ℤ → Act D.State (Unit {0})
  unfolding stage_file clean_tmp
  replace_file tmp dest content mode mtime s =
      clean_tmp tmp ((do stage_file tmp content mode mtime; call (D.rename tmp dest)) s)

  -- `write_file_atomic`, from the parent and the name of the path. The root of the file system has
  -- neither, and "x" is taken for its name.
  unfoldable pub write_at :
      Option (FilePath × Text) → FilePath → Bytes → ℕ → ℤ → Act D.State (Unit {0})
  unfolding tmp_name replace_file
  write_at none dest content mode mtime =
      λ s. replace_file (tmp_name (codes "x") (D.tmp_tag s) ∷ []) dest content mode mtime s
  write_at (some (dir, name)) dest content mode mtime = do
    call (D.create_dir_all dir)
    (λ s. replace_file (dir ++ tmp_name name (D.tmp_tag s) ∷ []) dest content mode mtime s)

  unfoldable pub write_file_atomic : FilePath → Bytes → ℕ → ℤ → Act D.State (Unit {0})
  unfolding split_last write_at
  write_file_atomic dest content mode mtime = write_at (split_last dest) dest content mode mtime
