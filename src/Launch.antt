-- ===== src/Launch.antt =====
-- src/main.rs: `build_context` and `host_status_lines`, from the options, the configuration and the
-- process environment to the run context.
-- The network is not part of the repository: `connect` stands for `Ssh::connect`, and `lock` for
-- what `acquire_run_lock` answers for a host and a project.
pub mod Targets
pub mod Status
use cargo_remote.Prelude.{
  ℕ, List, [], ◌∷◌, ◌++◌, map, Text, codes, Bool, true, false, not, ◌&&◌, ◌||◌, Option, none, some,
  Result, ok, err, ◌>>=◌, ◌>>◌, ensure, if◌then◌else◌, ◌==◌, is_empty, is_some, or_else, unwrap_or,
  text_eq,
}
use cargo_remote.Cli.{RemoteOpts, TransferMode, auto, merge}
use cargo_remote.Config.{Config, LoadOutcome}
use cargo_remote.Shell.{
  join, mask_env, EnvError, validate_env_entries, is_valid_toolchain, is_valid_cargo_path,
}
use cargo_remote.Transfer.{Transfer, name, transfer_of_mode}
use cargo_remote.Runner.{Context}
use cargo_remote.RunLock.{LockError, decimal}

-- The arguments without cargo's `remote` in front of the subcommand.
unfoldable pub strip_remote : List Text → List Text
strip_remote [] = []
strip_remote (program ∷ []) = program ∷ []
strip_remote (program ∷ a ∷ args) =
    if text_eq a (codes "remote") then program ∷ args else program ∷ a ∷ args

pub record ConnInfo : Type 0 where
  pub host : Text
  pub port : ℕ
  pub user : Text

-- The variables that are read, and which standard streams are terminals.
pub record Process : Type 0 where
  pub host_var : Option Text
  pub cargo_var : Option Text
  pub rustflags_var : Option Text
  pub stdin_tty : Bool
  pub stdout_tty : Bool
  pub stderr_tty : Bool

-- What `Project::discover` found.
pub record ProjectAt : Type 0 where
  pub root : Text
  pub name : Text

pub data LaunchError : Type 0 where
  no_host : LaunchError
  invalid_toolchain invalid_cargo_path : Text → LaunchError
  invalid_env : EnvError → LaunchError
  connect_failed : Text → LaunchError
  lock_refused : LockError → LaunchError

unfoldable pub default_cargo_path : Process → Text
default_cargo_path p = unwrap_or p.cargo_var (codes "$HOME/.cargo/bin/cargo")

unfoldable pub requirement_texts : Config → List Text
requirement_texts cfg =
    (elim cfg.arch [ none ↦ [] | some a ↦ (codes "arch " ++ a) ∷ [] ])
    ++ (elim cfg.min_rust_version [ none ↦ [] | some v ↦ (codes "cargo >= " ++ v) ∷ [] ])

-- The environment as the status line shows it.
unfoldable pub sent_texts : Option Text → List Text → Bool → List Text
sent_texts rustflags env verbose =
    (elim rustflags [ none ↦ [] | some rf ↦ (codes "RUSTFLAGS=" ++ rf) ∷ [] ])
    ++ map (λ kv. if verbose then kv else mask_env kv) env

unfoldable pub host_status_lines :
    Text
    → ConnInfo
    → Text
    → Transfer
    → Text
    → Option Text
    → List Text
    → Config
    → Option Text
    → Bool
    → List Text
host_status_lines host info remote_dir transfer cargo_path toolchain env cfg rustflags verbose =
    let place =
      codes "cargo-remote: host "
      ++ (host
          ++ (codes " ("
              ++ (info.user
                  ++ (codes "@"
                      ++ (info.host ++ (codes ":" ++ (decimal 5 info.port ++ codes ")"))))))) in
    let how = codes ", dir " ++ (remote_dir ++ (codes ", transfer " ++ name transfer)) in
    let cargo = codes ", cargo " ++ cargo_path in
    let chain : Text = elim toolchain [ none ↦ [] | some tc ↦ codes " +" ++ tc ] in
    let reqs = requirement_texts cfg in
    let needs = if is_empty reqs then [] else codes ", requires " ++ join (codes ", ") reqs in
    let sent = sent_texts rustflags env verbose in
    (place ++ (how ++ (cargo ++ (chain ++ needs))))
    ∷ (if is_empty sent
        then []
        else (codes "cargo-remote: env sent: " ++ join (codes " ") sent) ∷ [])

-- The host that the command line or the environment names.
unfoldable pub cli_or_env : Process → RemoteOpts → Option Text
cli_or_env p opts = or_else opts.remote p.host_var

unfoldable pub host_of : Process → RemoteOpts → Config → Option Text
host_of p opts cfg = or_else (cli_or_env p opts) cfg.host

unfoldable pub remote_dir_of : RemoteOpts → Config → Text
remote_dir_of opts cfg =
    unwrap_or (or_else opts.remote_dir cfg.remote_dir) (codes "~/remote-builds")

unfoldable pub cargo_path_of : Process → Config → Text
cargo_path_of p cfg = unwrap_or cfg.cargo_path (default_cargo_path p)

unfoldable pub toolchain_of : RemoteOpts → Config → Option Text
toolchain_of opts cfg = or_else opts.toolchain cfg.toolchain

unfoldable pub env_of : RemoteOpts → Config → List Text
env_of opts cfg = unwrap_or cfg.env [] ++ opts.env

-- `std::env::var("RUSTFLAGS").ok().filter(|s| !s.is_empty())`
unfoldable pub rustflags_of : Process → Option Text
rustflags_of p = elim p.rustflags_var [
  | none ↦ none
  | some rf ↦ if is_empty rf then none else some rf
]

unfoldable pub verbose_of : RemoteOpts → Config → Bool
verbose_of opts cfg = opts.verbose || unwrap_or cfg.verbose false

unfoldable pub transfer_of : RemoteOpts → Config → Transfer
transfer_of opts cfg = transfer_of_mode (unwrap_or (or_else opts.transfer cfg.transfer) auto)

-- Whether built files are copied back, and the warning where the project's host turns it off.
unfoldable pub copy_back_of : Process → RemoteOpts → LoadOutcome → Bool × List Text
copy_back_of p opts out = elim (or_else opts.copy_back out.config.copy_back) [
  | some v ↦ (v, [])
  | none ↦
      if not (is_some (cli_or_env p opts)) && out.host_from_project
      then (
        false,
        codes
              "cargo-remote: warning: copy-back disabled — the host came from a project config file; pass --copy-back (or set copy_back in your global config) to force it on"
            ∷ [],
      )
      else (true, [])
]

unfoldable pub interactive_of : Process → Bool
interactive_of p = p.stdout_tty && p.stdin_tty

-- The context that is assembled for a host.
unfoldable pub context_of : Process → ProjectAt → RemoteOpts → LoadOutcome → Text → Context
unfolding copy_back_of
context_of p project opts out host =
    let cfg = out.config in
    record {
      dry_run = opts.dry_run;
      verbose = verbose_of opts cfg;
      project_root = project.root;
      project_name = project.name;
      host = host;
      remote_base = remote_dir_of opts cfg;
      transfer = transfer_of opts cfg;
      copy_back = (copy_back_of p opts out).0;
      update_lockfile = opts.update_lockfile;
      sync = not opts.no_sync && unwrap_or cfg.sync true;
      exclude_git = opts.exclude_git || unwrap_or cfg.exclude_git false;
      extra_exclude = unwrap_or cfg.exclude [] ++ opts.exclude;
      env = env_of opts cfg;
      rustflags = rustflags_of p;
      toolchain = toolchain_of opts cfg;
      interactive = interactive_of p;
      cargo_path = cargo_path_of p cfg;
      arch = cfg.arch;
      min_rust_version = cfg.min_rust_version;
    }

-- A context, whether the live sync status is shown, and the lines that were printed on the way.
pub record Launched : Type 0 where
  pub context : Context
  pub sync_status : Bool
  pub printed : List Text

unfoldable pub some_or : {A : Type 0} → Option A → LaunchError → Result LaunchError A
some_or none e = err e
some_or (some a) e = ok a

unfoldable pub toolchain_ok : Option Text → Bool
toolchain_ok none = true
toolchain_ok (some tc) = is_valid_toolchain tc

unfoldable pub checked_env : Result EnvError (Unit {0}) → Result LaunchError (Unit {0})
checked_env (ok u) = ok u
checked_env (err e) = err (invalid_env e)

module _ (connect : Text → Bool → Result Text ConnInfo)
    (lock : Text → Text → Result LockError (Unit {0})) where
  -- A dry run never connects, and neither does a caller that connects by itself.
  unfoldable pub session : Bool → Text → Bool → Result LaunchError (Option ConnInfo)
  session false host interactive = ok none
  session true host interactive = elim (connect host interactive) [
    | ok info ↦ ok (some info)
    | err e ↦ err (connect_failed e)
  ]

  unfoldable pub take_lock : Bool → Text → Text → Result LaunchError (Unit {0})
  take_lock false host project = ok tt
  take_lock true host project = elim (lock host project) [
    | ok u ↦ ok u
    | err e ↦ err (lock_refused e)
  ]

  -- `build_context`, once the project is found and the configuration is read
  unfoldable pub build_context :
      Process
      → ProjectAt
      → RemoteOpts
      → RemoteOpts
      → Bool
      → LoadOutcome
      → Result LaunchError Launched
  build_context p project global local connects out = do
    let opts = merge global local
    let cfg = out.config
    let online = connects && not opts.dry_run
    host ← some_or (host_of p opts cfg) no_host
    ensure (toolchain_ok (toolchain_of opts cfg))
        (invalid_toolchain (unwrap_or (toolchain_of opts cfg) []))
    ensure (is_valid_cargo_path (cargo_path_of p cfg)) (invalid_cargo_path (cargo_path_of p cfg))
    _ ← checked_env (validate_env_entries (env_of opts cfg))
    info ← session online host (interactive_of p)
    let ctx = context_of p project opts out host
    let status : List Text = elim info [
      | none ↦ []
      | some i ↦
          host_status_lines host i ctx.remote_base ctx.transfer ctx.cargo_path ctx.toolchain ctx.env
            cfg ctx.rustflags ctx.verbose
    ]
    _ ← take_lock online host project.name
    ok (record {
      context = ctx;
      sync_status = not opts.no_sync_status && (unwrap_or cfg.sync_status true && p.stderr_tty);
      printed =
          map (λ w. codes "cargo-remote: warning: " ++ w) out.warnings
          ++ (status ++ (copy_back_of p opts out).1);
    })
