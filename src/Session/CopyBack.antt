-- ===== src/Session/CopyBack.antt =====
-- src/runner.rs: `copy_back_binaries` and `copy_back_lockfile`.
use cargo_remote.Prelude.{
  List, [], ◌∷◌, ◌++◌, map, Text, Bytes, codes, Option, none, some, Result, ok, err, ensure,
  if◌then◌else◌, ◌==◌, is_empty,
}
use cargo_remote.Prelude.Words.{trim, split_at}
use cargo_remote.Agent.Paths.{PathError, checked_basename}
use cargo_remote.Project.{ProfileError, profile_from_args}
use cargo_remote.Shell.{quote_remote_path}
use cargo_remote.Runner.{Context, remote_dir, remote_dir_q}
use cargo_remote.Session.{
  SessionError, find_failed, bad_profile, bad_name, World, Machine, Run, require_ssh, exec_capture,
  exec_download, agent_fetch, create_dir_all, ◌>>=◌, ◌>>◌, pure, lift,
}
use cargo_remote.Session.Installing.{ensure_agent}
use cargo_remote.Session.Lockfile.{apply_remote_lockfile}

unfoldable pub profile_of : List Text → Result SessionError Text
profile_of args = of (profile_from_args args)
  where
    of : Result ProfileError Text → Result SessionError Text
    of (ok p) = ok p
    of (err e) = err (bad_profile e)

unfoldable pub name_of : Text → Result SessionError Text
name_of rel = of (checked_basename rel)
  where
    of : Result PathError Text → Result SessionError Text
    of (ok p) = ok p
    of (err e) = err (bad_name e)

unfoldable pub find_cmd : Context → Text → Text
find_cmd ctx profile =
    codes "cd "
    ++ (remote_dir_q ctx
        ++ (codes " && find target/"
            ++ (profile
                ++ codes
                    " -maxdepth 1 -type f \\( -perm -u+x -o -name '*.so' -o -name '*.dylib' -o -name '*.dll' \\) -print0 2>/dev/null")))

unfoldable pub not_blank : List Text → List Text
not_blank [] = []
not_blank (s ∷ ss) = let rest = not_blank ss in if is_empty (trim s) then rest else s ∷ rest

-- The paths in an output that ends each with a zero byte.
unfoldable pub found_files : (Bytes → Text) → Bytes → List Text
unfolding split_at not_blank
found_files lossy out = let (w, ws) = split_at (λ b. b == 0) out in not_blank (map lossy (w ∷ ws))

unfoldable pub lockfile_cmd : Context → Text
lockfile_cmd ctx = codes "cat " ++ (remote_dir_q ctx ++ codes "/Cargo.lock 2>/dev/null || true")

-- `target/<profile>` in the project's directory
unfoldable pub local_profile_dir : Context → Text → Text
local_profile_dir ctx profile = ctx.project_root ++ (codes "/target/" ++ profile)

unfoldable pub download_cmd : Context → Text → Text
download_cmd ctx file = codes "cat " ++ quote_remote_path (remote_dir ctx ++ (b'/' ∷ file))

module _ (W : World) (M : Machine) (ctx : Context) where
  -- Plain downloads, one by one, under the checked base names.
  unfoldable pub download_one : Text → Text → Run (Unit {0})
  unfolding name_of exec_download download_cmd
  download_one dest file = do
    name ← lift (name_of file)
    exec_download W (download_cmd ctx file) (dest ++ (b'/' ∷ name))

  unfoldable pub download_all : Text → List Text → Run (Unit {0})
  unfolding download_one
  download_all dest [] = pure tt
  download_all dest (file ∷ files) = do download_one dest file; download_all dest files

  unfoldable pub fetch_with : Option Text → Text → List Text → Run (Unit {0})
  unfolding agent_fetch download_all
  fetch_with none dest files = download_all dest files
  fetch_with (some agent_q) dest files = do
    _ ← agent_fetch W agent_q (remote_dir ctx) files dest
    pure tt

  unfoldable pub fetch_files : Text → List Text → Run (Unit {0})
  unfolding create_dir_all ensure_agent fetch_with
  fetch_files dest [] = pure tt
  fetch_files dest (file ∷ files) = do
    create_dir_all W dest
    agent ← ensure_agent W M ctx
    fetch_with agent dest (file ∷ files)

  unfoldable pub copy_back_lockfile : Run (Unit {0})
  unfolding require_ssh exec_capture lockfile_cmd apply_remote_lockfile
  copy_back_lockfile = do
    require_ssh M
    (_, out) ← exec_capture W (lockfile_cmd ctx)
    apply_remote_lockfile W ctx.update_lockfile out

  unfoldable pub copy_back_from : Text → Run (Unit {0})
  unfolding require_ssh exec_capture find_cmd found_files fetch_files local_profile_dir
      copy_back_lockfile
  copy_back_from profile = do
    require_ssh M
    (code, out) ← exec_capture W (find_cmd ctx profile)
    lift (ensure (code == 0) (find_failed code))
    fetch_files (local_profile_dir ctx profile) (found_files M.lossy out)
    copy_back_lockfile

  unfoldable pub copy_back_binaries : List Text → Run (Unit {0})
  unfolding profile_of copy_back_from
  copy_back_binaries args = do
    profile ← lift (profile_of args)
    (if ctx.dry_run then pure tt else copy_back_from profile)
