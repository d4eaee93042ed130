-- ===== src/Cli.antt =====
-- src/cli.rs: the options of a run, given before and after the subcommand, and their merge.
pub mod Merge
use cargo_remote.Prelude.{
  ◌≡◌, refl, List, [], ◌∷◌, ◌++◌, Text, Bool, true, false, ◌||◌, Option, none, some, if◌then◌else◌,
  or_else,
}

pub data TransferMode : Type 0 where
  auto rsync rsync_z tar tar_gz tar_zstd tar_inc : TransferMode

pub record RemoteOpts : Type 0 where
  pub remote : Option Text
  pub remote_dir : Option Text
  pub transfer : Option TransferMode
  pub copy_back : Option Bool
  pub update_lockfile : Bool
  pub no_copy_back : Bool
  pub no_sync : Bool
  pub exclude_git : Bool
  pub exclude : List Text
  pub env : List Text
  pub toolchain : Option Text
  pub dry_run : Bool
  pub verbose : Bool
  pub no_sync_status : Bool

unfoldable pub apply_no_copy_back : RemoteOpts → RemoteOpts
apply_no_copy_back o = record o { copy_back = if o.no_copy_back then some false else o.copy_back }

-- `self.merge(other)`: `other` is the subcommand's options.
unfoldable pub merge : RemoteOpts → RemoteOpts → RemoteOpts
unfolding apply_no_copy_back
merge self other = apply_no_copy_back (record {
  remote = or_else other.remote self.remote;
  remote_dir = or_else other.remote_dir self.remote_dir;
  transfer = or_else other.transfer self.transfer;
  copy_back = or_else other.copy_back self.copy_back;
  update_lockfile = other.update_lockfile || self.update_lockfile;
  no_copy_back = other.no_copy_back || self.no_copy_back;
  no_sync = other.no_sync || self.no_sync;
  exclude_git = other.exclude_git || self.exclude_git;
  exclude = self.exclude ++ other.exclude;
  env = self.env ++ other.env;
  toolchain = or_else other.toolchain self.toolchain;
  dry_run = other.dry_run || self.dry_run;
  verbose = other.verbose || self.verbose;
  no_sync_status = other.no_sync_status || self.no_sync_status;
})

-- `RemoteOpts::default()`
abbrev pub default_opts : RemoteOpts
default_opts = record {
  remote = none;
  remote_dir = none;
  transfer = none;
  copy_back = none;
  update_lockfile = false;
  no_copy_back = false;
  no_sync = false;
  exclude_git = false;
  exclude = [];
  env = [];
  toolchain = none;
  dry_run = false;
  verbose = false;
  no_sync_status = false;
}
