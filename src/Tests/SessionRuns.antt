-- ===== src/Tests/SessionRuns.antt =====
-- src/runner.rs: commands against a server that is written out.
use cargo_remote.Prelude.{
  ◌≡◌, refl, arith, ℕ, List, [], ◌∷◌, ◌++◌, Text, Bytes, codes, Bool, true, false, Option, none,
  some, Result, ok, err, if◌then◌else◌, text_eq,
}
use cargo_remote.Project.{CargoSubcommand, build}
use cargo_remote.Transfer.{tar, gzip}
use cargo_remote.Runner.{Context, remote_cargo_words, remote_cargo_command}
use cargo_remote.Runner.Version.{Version, parse_version}
use cargo_remote.Runner.Versions.{Fits, version_text, parse_version-version_text}
use cargo_remote.Session.{
  SessionError, failed, Event, captured, executed, World, Machine, Session, Lockfiles, Run,
}
use cargo_remote.Session.Lockfile.{apply_remote_lockfile}
use cargo_remote.Session.Commands.{build_command, ext_command, clean_command, sync_command}
use cargo_remote.Session.Traces.{CommandTrace, Traced}
use cargo_remote.Session.Builds.{ext_command-CommandTrace}
use cargo_remote.Session.Checked.{RequirementsMet, commands-RequirementsMet}
use cargo_remote.Session.DryRun.{Unasked, dry_run-Unasked}
use cargo_remote.Session.LockOutcomes.{LockOutcome, apply_remote_lockfile-LockOutcome}

abbrev sample : Context
sample = record {
  dry_run = false;
  verbose = false;
  project_root = codes "/w/app";
  project_name = codes "app-1";
  host = codes "box";
  remote_base = codes "builds";
  transfer = tar gzip;
  copy_back = true;
  update_lockfile = true;
  sync = true;
  exclude_git = true;
  extra_exclude = [];
  env = [];
  rustflags = none;
  toolchain = none;
  interactive = false;
  cargo_path = codes "cargo";
  arch = some (codes "aarch64");
  min_rust_version = some (codes "1.70");
}

abbrev dry_sample : Context
dry_sample = record sample { dry_run = true }

abbrev laptop : Machine
laptop = record {
  connected = true;
  os = codes "linux";
  arch = codes "x86_64";
  home = some (codes "/home/u");
  version_line = ok (codes "agent 1");
  own_binary = ok (codes "ELF");
  staging_tag = codes "7.9";
  lossy = λ b. b;
}

-- The answers: an ARM server with a toolchain, one product, and a lock file.
abbrev server : World
server = record {
  capture = λ h line.
      if text_eq line (codes "uname -m")
      then ok (0, codes "arm64\n")
      else if text_eq line (codes "uname -sm")
      then ok (0, codes "Linux aarch64\n")
      else if text_eq line (codes "cargo --version")
      then ok (0, codes "cargo 1.80.0-nightly (x)\n")
      else if text_eq line (codes "cat builds/app-1/Cargo.lock 2>/dev/null || true")
      then ok (0, codes "lock")
      else ok (0, codes "target/debug/app" ++ 0 ∷ []);
  exec_term = λ h line pty. ok 0;
  exec_send = λ h line feed. ok 0;
  finish = λ h feed. ok tt;
  sync = λ h agent root dir excludes delete. ok tt;
  fetch = λ h agent dir files dest. ok files;
  download = λ h line dest. ok tt;
  make_dir = λ h dir. ok tt;
  make_private = λ h dir. ok tt;
  write_file = λ h name bytes. (true, some bytes);
  rename = λ h from onto. true;
}

abbrev fresh : Session
fresh = record {
  events = [];
  agent = none;
  lockfiles = record { local = none; review = none; staging = none };
}

abbrev nightly : Version
nightly = record { major = 1; minor = 80; patch = 0 }

nightly-Fits : Fits nightly
nightly-Fits = record {
  major_fits = ground arith;
  minor_fits = ground arith;
  patch_fits = ground arith;
}

parse_version-version_text_example : parse_version (codes "cargo 1.80.0-nightly (x)\n") ≡ ok nightly
unfolding cargo_remote.Prelude.Words.is_whitespace cargo_remote.Runner.Version.starts_with_digit
    version_text cargo_remote.RunLock.decimal
parse_version-version_text_example =
    parse_version-version_text (codes "cargo") nightly (codes "-nightly") b' ' (codes "(x)\n") refl
      refl nightly-Fits refl refl refl refl

-- The whole of a build: its exit code and the lock file after it.
build_command_run :
    ((build_command server laptop sample build [] fresh).0 ≡ ok 0)
    × ((build_command server laptop sample build [] fresh).1.lockfiles.local ≡ some (codes "lock"))
unfolding build_command cargo_remote.Session.go_on cargo_remote.Project.profile_from_args
    cargo_remote.Prelude.Words.trim cargo_remote.Runner.cargo_program
    cargo_remote.Shell.quote_remote_path cargo_remote.Shell.shell_quote
    cargo_remote.Runner.Version.version_ltb remote_cargo_command remote_cargo_words
    cargo_remote.Runner.env_parts cargo_remote.Shell.push_env_prefix
    cargo_remote.Agent.Paths.checked_basename cargo_remote.Runner.remote_dir_q
    cargo_remote.Runner.remote_dir
build_command_run = (refl, refl)

ext_command-CommandTrace_example :
    Traced server laptop sample
      (CommandTrace server laptop sample
        (remote_cargo_words sample (codes "nextest" ∷ []))
        false
        [])
      fresh
      (ext_command server laptop sample (codes "nextest" ∷ []) fresh)
ext_command-CommandTrace_example =
    ext_command-CommandTrace server laptop sample (codes "nextest" ∷ []) fresh refl tt

dry_run-Unasked_example :
    ((cmd : CargoSubcommand) (args : List Text)
      → Unasked (λ n. n ≡ 0) (build_command server laptop dry_sample cmd args))
    × (((argv : List Text) → Unasked (λ n. n ≡ 0) (ext_command server laptop dry_sample argv))
        × (Unasked (λ n. n ≡ 0) (clean_command server laptop dry_sample)
            × Unasked (λ n. n ≡ 0) (sync_command server laptop dry_sample)))
dry_run-Unasked_example = dry_run-Unasked server laptop dry_sample refl

apply_remote_lockfile-LockOutcome_example :
    LockOutcome true
      (codes "lock")
      fresh.lockfiles
      (apply_remote_lockfile server true (codes "lock") fresh).0
      (apply_remote_lockfile server true (codes "lock") fresh).1.lockfiles
apply_remote_lockfile-LockOutcome_example =
    apply_remote_lockfile-LockOutcome server true (codes "lock") fresh (λ h name bytes w. refl)

commands-RequirementsMet_example :
    ((cmd : CargoSubcommand) (args : List Text)
      → (build_command server laptop sample cmd args fresh).0 ≡ ok 0
      → RequirementsMet server laptop sample)
    × (((argv : List Text)
          → (ext_command server laptop sample argv fresh).0 ≡ ok 0
          → RequirementsMet server laptop sample)
        × (((clean_command server laptop sample fresh).0 ≡ ok 0
              → RequirementsMet server laptop sample)
            × ((sync_command server laptop sample fresh).0 ≡ ok 0
                → RequirementsMet server laptop sample)))
commands-RequirementsMet_example = commands-RequirementsMet server laptop sample fresh 0 refl
