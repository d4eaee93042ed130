-- ===== src/Session/Requirements.antt =====
-- src/runner.rs: `check_requirements`, and the remote command of `exec_remote`.
use cargo_remote.Prelude.{
  ℕ, ◌++◌, Text, codes, Bool, not, ◌||◌, Option, none, some, Result, ok, err, ensure, if◌then◌else◌,
  text_eq, is_some,
}
use cargo_remote.Runner.{Context, cargo_program}
use cargo_remote.Runner.Version.{
  Version, VersionError, norm_arch, resolve_arch, parse_version, version_ltb,
}
use cargo_remote.Session.{
  SessionError, wrong_arch, bad_remote_version, bad_min_version, too_old, World, Machine, Run,
  require_ssh, exec_capture, exec_term, ◌>>=◌, ◌>>◌, pure, lift,
}

-- The remote's version against the configured minimum, both as they were parsed.
unfoldable pub compare_versions :
    Result VersionError Version → Result VersionError Version → Result SessionError (Unit {0})
compare_versions (err e) want = err bad_remote_version
compare_versions (ok got) (err e) = err bad_min_version
compare_versions (ok got) (ok want) = ensure (not (version_ltb got want)) too_old

-- The remote architecture against the configured one; a warning is all that happens without one.
unfoldable pub check_arch : Machine → Option Text → Text → Result SessionError (Unit {0})
unfolding resolve_arch
check_arch M none remote = ok tt
check_arch M (some want) remote =
    ensure (text_eq remote (resolve_arch M.arch want))
      (wrong_arch remote (resolve_arch M.arch want))

-- The output of `cargo --version` against the configured minimum.
unfoldable pub check_version : Text → Text → Result SessionError (Unit {0})
unfolding parse_version compare_versions
check_version text min = compare_versions (parse_version text) (parse_version min)

module _ (W : World) (M : Machine) (ctx : Context) where
  -- `{cargo} --version`
  unfoldable pub version_cmd : Text
  version_cmd = cargo_program ctx ++ codes " --version"

  unfoldable pub require_arch : Run (Unit {0})
  unfolding exec_capture norm_arch check_arch
  require_arch = do
    (_, out) ← exec_capture W (codes "uname -m")
    lift (check_arch M ctx.arch (norm_arch (M.lossy out)))

  unfoldable pub require_version : Option Text → Run (Unit {0})
  unfolding exec_capture version_cmd check_version
  require_version none = pure tt
  require_version (some min) = do
    (_, out) ← exec_capture W version_cmd
    lift (check_version (M.lossy out) min)

  unfoldable pub check_requirements : Bool → Run (Unit {0})
  unfolding require_ssh require_arch require_version
  check_requirements warn_arch =
      if ctx.dry_run || not ((is_some ctx.arch || warn_arch) || is_some ctx.min_rust_version)
      then pure tt
      else (do
        require_ssh M
        (if is_some ctx.arch || warn_arch then require_arch else pure tt)
        require_version ctx.min_rust_version)

  unfoldable pub exec_remote : Text → Run ℕ
  unfolding require_ssh exec_term
  exec_remote line =
      if ctx.dry_run then pure 0 else (do require_ssh M; exec_term W line ctx.interactive)
