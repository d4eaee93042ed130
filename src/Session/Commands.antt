-- ===== src/Session/Commands.antt =====
-- src/runner.rs: `sync`, `clean`, `build` and `ext`, which give the exit code of the process.
use cargo_remote.Prelude.{
  ℕ, ◌%◌, List, Text, Bool, true, false, ◌&&◌, Result, ok, err, if◌then◌else◌, ◌==◌, [],
}
use cargo_remote.Project.{CargoSubcommand, build, clean}
use cargo_remote.Shell.{EnvError}
use cargo_remote.Runner.{Context, remote_cargo_words, remote_cargo_command}
use cargo_remote.Session.{SessionError, bad_env, World, Machine, Run, ◌>>=◌, ◌>>◌, pure, lift}
use cargo_remote.Session.Requirements.{check_requirements, exec_remote}
use cargo_remote.Session.Syncing.{do_sync}
use cargo_remote.Session.CopyBack.{profile_of, copy_back_binaries}

unfoldable pub is_build : CargoSubcommand → Bool
is_build build = true
is_build _ = false

unfoldable pub line_or : Result EnvError Text → Result SessionError Text
line_or (ok line) = ok line
line_or (err e) = err (bad_env e)

-- `code as u8`
unfoldable pub exit_code : ℕ → ℕ
exit_code code = code % 256

module _ (W : World) (M : Machine) (ctx : Context) where
  unfoldable pub sync_if_asked : Run (Unit {0})
  unfolding do_sync
  sync_if_asked = if ctx.sync then do_sync W M ctx else pure tt

  -- The remote command, from its line on.
  unfoldable pub run_line : Result EnvError Text → Run ℕ
  unfolding line_or exec_remote
  run_line built = do line ← lift (line_or built); exec_remote W M ctx line

  unfoldable pub sync_command : Run ℕ
  unfolding check_requirements do_sync
  sync_command = do check_requirements W M ctx false; do_sync W M ctx; pure 0

  unfoldable pub clean_command : Run ℕ
  unfolding check_requirements run_line exit_code
  clean_command = do
    check_requirements W M ctx false
    code ← run_line (remote_cargo_command ctx clean [])
    pure (exit_code code)

  -- Whether the products of the command are fetched.
  unfoldable pub copies_back : CargoSubcommand → Bool
  unfolding is_build
  copies_back cmd = is_build cmd && ctx.copy_back

  -- After the remote command: a failure is passed on, and nothing is fetched.
  unfoldable pub after_command : CargoSubcommand → List Text → ℕ → Run ℕ
  unfolding copies_back copy_back_binaries exit_code
  after_command cmd args code =
      if code == 0
      then (do (if copies_back cmd then copy_back_binaries W M ctx args else pure tt); pure 0)
      else pure (exit_code code)

  unfoldable pub build_command : CargoSubcommand → List Text → Run ℕ
  unfolding copies_back profile_of check_requirements sync_if_asked run_line after_command
  build_command cmd args = do
    (if copies_back cmd then (do _ ← lift (profile_of args); pure tt) else pure tt)
    check_requirements W M ctx (copies_back cmd)
    sync_if_asked
    code ← run_line (remote_cargo_command ctx cmd args)
    after_command cmd args code

  unfoldable pub ext_command : List Text → Run ℕ
  unfolding check_requirements sync_if_asked run_line exit_code
  ext_command argv = do
    check_requirements W M ctx false
    sync_if_asked
    code ← run_line (remote_cargo_words ctx argv)
    pure (exit_code code)
