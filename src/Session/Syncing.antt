-- ===== src/Session/Syncing.antt =====
-- src/transfer.rs: the four strategies of `Transfer::sync`.
use cargo_remote.Prelude.{
  ◌∷◌, ◌++◌, Text, codes, true, Bool, Option, none, some, Result, ok, err, ensure, if◌then◌else◌,
  ◌==◌, is_some,
}
use cargo_remote.Transfer.{
  Compressor, no_compressor, gzip, Transfer, auto, delta, tar, tar_incremental, snapshot_name,
  tar_args, tar_remote_line,
}
use cargo_remote.Runner.{Context, excludes, remote_dir, remote_dir_q}
use cargo_remote.Session.{
  SessionError, no_home, tar_failed, Feed, archive, World, Machine, Run, require_ssh, exec_capture,
  exec_send, finish_feed, agent_sync, create_dir_all, set_private, ◌>>=◌, ◌>>◌, pure, lift,
}
use cargo_remote.Session.Installing.{ensure_agent}

-- `~/.cache/cargo-remote/inc`, and the snapshot in it.
unfoldable pub snapshot_dir : Text → Text
snapshot_dir home = home ++ codes "/.cache/cargo-remote/inc"

unfoldable pub snapshot_path : Context → Text → Text
unfolding snapshot_dir
snapshot_path ctx home = snapshot_dir home ++ (b'/' ∷ snapshot_name ctx.host ctx.project_name)

unfoldable pub home_of : Option Text → Result SessionError Text
home_of none = err no_home
home_of (some home) = ok home

module _ (W : World) (M : Machine) (ctx : Context) where
  unfoldable pub tar_line : Compressor → Bool → Text
  tar_line compressor incremental = tar_remote_line compressor incremental (remote_dir_q ctx)

  unfoldable pub tar_feed : Compressor → Option Text → Feed
  tar_feed compressor snapshot =
      archive (tar_args snapshot (excludes ctx) ctx.project_root) compressor (is_some snapshot)

  unfoldable pub tar_sync : Compressor → Option Text → Run (Unit {0})
  unfolding require_ssh exec_send finish_feed tar_line tar_feed
  tar_sync compressor snapshot = if ctx.dry_run then pure tt else (do
    require_ssh M
    code ← exec_send W (tar_line compressor (is_some snapshot)) (tar_feed compressor snapshot)
    finish_feed W (tar_feed compressor snapshot)
    lift (ensure (code == 0) (tar_failed code)))

  -- An incremental stream without an agent; this directory is not made private.
  unfoldable pub fallback_sync : Run (Unit {0})
  unfolding home_of create_dir_all tar_sync
  fallback_sync = do
    home ← lift (home_of M.home)
    create_dir_all W (snapshot_dir home)
    tar_sync no_compressor (some (snapshot_path ctx home))

  unfoldable pub sync_with : Option Text → Run (Unit {0})
  unfolding require_ssh agent_sync fallback_sync
  sync_with none = fallback_sync
  sync_with (some agent_q) = do
    require_ssh M
    agent_sync W agent_q ctx.project_root (remote_dir ctx) (excludes ctx) true

  unfoldable pub delta_sync : Run (Unit {0})
  unfolding ensure_agent sync_with
  delta_sync = if ctx.dry_run then pure tt else (do agent ← ensure_agent W M ctx; sync_with agent)

  unfoldable pub auto_sync : Run (Unit {0})
  unfolding require_ssh exec_capture delta_sync tar_sync
  auto_sync = if ctx.dry_run then pure tt else (do
    require_ssh M
    (code, _) ← exec_capture W (codes "test -d " ++ remote_dir_q ctx)
    (if code == 0 then delta_sync else tar_sync gzip none))

  -- The cache of snapshots, and its parent, which is made private as well, if that works.
  unfoldable pub prepare_cache : Text → Run (Unit {0})
  unfolding create_dir_all set_private
  prepare_cache home = if ctx.dry_run then pure tt else (do
    create_dir_all W (snapshot_dir home)
    set_private W (snapshot_dir home)
    (λ s. (ok tt, (set_private W (home ++ codes "/.cache/cargo-remote") s).1)))

  unfoldable pub incremental_sync : Run (Unit {0})
  unfolding home_of prepare_cache tar_sync
  incremental_sync = do
    home ← lift (home_of M.home)
    prepare_cache home
    tar_sync no_compressor (some (snapshot_path ctx home))

  unfoldable pub sync_by : Transfer → Run (Unit {0})
  unfolding auto_sync delta_sync tar_sync incremental_sync
  sync_by auto = auto_sync
  sync_by delta = delta_sync
  sync_by (tar compressor) = tar_sync compressor none
  sync_by tar_incremental = incremental_sync

  unfoldable pub do_sync : Run (Unit {0})
  unfolding sync_by
  do_sync = sync_by ctx.transfer
