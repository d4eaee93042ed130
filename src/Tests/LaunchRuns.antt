-- ===== src/Tests/LaunchRuns.antt =====
-- src/main.rs: contexts and status lines for one small configuration.
use cargo_remote.Prelude.{
  ◌≡◌, refl, [], ◌∷◌, Text, codes, Bool, true, false, none, some, Result, ok,
}
use cargo_remote.Cli.{default_opts, merge}
use cargo_remote.Config.{
  Config, default_config, LoadOutcome, load_project, load_from, overlay, warning_for,
  root_config_file,
}
use cargo_remote.Shell.{is_valid_cargo_path, validate_env_entries, split_once, join, mask_env}
use cargo_remote.Shell.Reader.{sh_read}
use cargo_remote.Transfer
use cargo_remote.Transfer.{transfer_of_mode}
use cargo_remote.Runner.{remote_cargo_words}
use cargo_remote.Runner.CommandLine.{command_tokens}
use cargo_remote.RunLock.{LockError, decimal}
use cargo_remote.Launch.{
  ConnInfo, Process, ProjectAt, Launched, context_of, build_context, host_status_lines,
  toolchain_ok, some_or, host_of, cli_or_env, toolchain_of, cargo_path_of, default_cargo_path,
  checked_env, env_of, session, take_lock, interactive_of, remote_dir_of, transfer_of, verbose_of,
  rustflags_of, copy_back_of, sent_texts, requirement_texts,
}
use cargo_remote.Launch.Targets.{build_context-line, SameTarget, untrusted_project-SameTarget}

abbrev peer : ConnInfo
peer = record { host = codes "10.0.0.2"; port = 22; user = codes "me" }

status_run :
    host_status_lines
      (codes "alias")
      peer
      (codes "~/b")
      Transfer.auto
      (codes "cargo")
      none
      (codes "FOO=bar" ∷ [])
      default_config
      (some (codes "-O"))
      false
    ≡ codes "cargo-remote: host alias (me@10.0.0.2:22), dir ~/b, transfer auto, cargo cargo"
      ∷ codes "cargo-remote: env sent: RUSTFLAGS=-O FOO=***"
      ∷ []
unfolding host_status_lines decimal sent_texts Transfer.name join requirement_texts mask_env
    split_once
status_run = refl

abbrev process : Process
process = record {
  host_var = some (codes "build-box");
  cargo_var = none;
  rustflags_var = some [];
  stdin_tty = true;
  stdout_tty = true;
  stderr_tty = false;
}

abbrev demo : ProjectAt
demo = record { root = codes "/home/me/demo"; name = codes "demo" }

abbrev found_peer : Text → Bool → Result Text ConnInfo
found_peer host interactive = ok peer

abbrev free_lock : Text → Text → Result LockError (Unit {0})
free_lock host project = ok tt

abbrev outcome : LoadOutcome
outcome = record { config = default_config; warnings = []; host_from_project = false }

abbrev demo_run : Launched
demo_run = record {
  context = context_of process demo default_opts outcome (codes "build-box");
  sync_status = false;
  printed =
      codes
        "cargo-remote: host build-box (me@10.0.0.2:22), dir ~/remote-builds, transfer auto, cargo $HOME/.cargo/bin/cargo"
      ∷ [];
}

demo_launched :
    build_context found_peer free_lock process demo default_opts default_opts true outcome
    ≡ ok demo_run
unfolding build_context some_or host_of cli_or_env merge toolchain_ok toolchain_of
    is_valid_cargo_path cargo_path_of default_cargo_path checked_env validate_env_entries env_of
    session take_lock interactive_of context_of remote_dir_of transfer_of transfer_of_mode
    verbose_of rustflags_of copy_back_of host_status_lines decimal sent_texts Transfer.name join
    requirement_texts mask_env split_once
demo_launched = refl

build_context-line_example :
    (line : Text) × (remote_cargo_words demo_run.context (codes "build" ∷ []) ≡ ok line)
    × (sh_read (codes "/home/me") line
        ≡ some (command_tokens (codes "/home/me") demo_run.context (codes "build" ∷ [])))
build_context-line_example =
    build_context-line found_peer free_lock process demo default_opts default_opts true outcome
      demo_run (codes "/home/me") (codes "build" ∷ []) demo_launched

abbrev evil : Config
evil = record default_config { host = some (codes "evil"); copy_back = some true }

abbrev untrusted : LoadOutcome
untrusted = load_project false root_config_file (some evil) outcome

abbrev untrusted_run : Launched
untrusted_run = record demo_run {
  printed =
      (codes
        "cargo-remote: warning: ignoring host, copy_back from .cargo-remote.toml: project config is untrusted (set trust_project_config = true in your global cargo-remote config to allow these keys)")
      ∷ demo_run.printed;
}

untrusted_project-SameTarget_example : SameTarget demo_run.context untrusted_run.context
untrusted_project-SameTarget_example =
    untrusted_project-SameTarget found_peer free_lock process demo default_opts default_opts true
      (some (ok none)) none (ok none) (ok none) (ok none) (ok (some evil)) outcome untrusted
      demo_run untrusted_run refl (unfold overlay in refl)
      (unfold load_from load_project overlay in refl)
      (unfold load_from load_project overlay in refl) demo_launched
      (unfold load_project overlay warning_for build_context some_or host_of cli_or_env merge
          toolchain_ok toolchain_of is_valid_cargo_path cargo_path_of default_cargo_path checked_env
          validate_env_entries env_of session take_lock interactive_of context_of remote_dir_of
          transfer_of transfer_of_mode verbose_of rustflags_of copy_back_of host_status_lines
          decimal sent_texts Transfer.name join requirement_texts mask_env split_once in
        refl)
