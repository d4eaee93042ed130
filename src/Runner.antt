-- ===== src/Runner.antt =====
-- src/runner.rs: the run context and the shell line of a remote cargo command.
pub mod CommandLine
pub mod Version
pub mod Versions
use cargo_remote.Prelude.{
  ℕ, ◌≡◌, refl, List, [], ◌∷◌, ◌++◌, map, Text, codes, Bool, true, false, Option, none, some,
  Result, ok, err, ◌>>=◌, if◌then◌else◌, ◌==◌, is_empty,
}
use cargo_remote.Project.{CargoSubcommand, as_str, trim_end}
use cargo_remote.Shell.{shell_quote, shell_join, quote_remote_path, join, EnvError, push_env_prefix}
use cargo_remote.Transfer.{Transfer}

-- The fields of `Context` that are data; the connection, the agent cell and the lock are left out.
pub record Context : Type 0 where
  pub dry_run : Bool
  pub verbose : Bool
  pub project_root : Text
  pub project_name : Text
  pub host : Text
  pub remote_base : Text
  pub transfer : Transfer
  pub copy_back : Bool
  pub update_lockfile : Bool
  pub sync : Bool
  pub exclude_git : Bool
  pub extra_exclude : List Text
  pub env : List Text
  pub rustflags : Option Text
  pub toolchain : Option Text
  pub interactive : Bool
  pub cargo_path : Text
  pub arch : Option Text
  pub min_rust_version : Option Text

unfoldable pub excludes : Context → List Text
excludes ctx =
    (codes "target" ∷ [])
    ++ ((if ctx.exclude_git then codes ".git" ∷ [] else []) ++ ctx.extra_exclude)

-- `remote_base.trim_end_matches('/')`
unfoldable pub trim_slashes : Text → Text
unfolding trim_end
trim_slashes s = trim_end (λ c. c == b'/') s

unfoldable pub remote_dir : Context → Text
unfolding trim_slashes
remote_dir ctx = trim_slashes ctx.remote_base ++ (b'/' ∷ ctx.project_name)

unfoldable pub remote_dir_q : Context → Text
remote_dir_q ctx = quote_remote_path (remote_dir ctx)

unfoldable pub cargo_program : Context → Text
cargo_program ctx = elim ctx.toolchain [
  | some tc ↦ quote_remote_path ctx.cargo_path ++ (codes " +" ++ shell_quote tc)
  | none ↦ quote_remote_path ctx.cargo_path
]

-- The assignments in front of the command: RUSTFLAGS first, then the configured pairs.
unfoldable pub env_parts : Context → Result EnvError (List Text)
env_parts ctx =
    push_env_prefix
      (elim ctx.rustflags [ none ↦ [] | some rf ↦ (codes "RUSTFLAGS=" ++ shell_quote rf) ∷ [] ])
      ctx.env

-- The line, for the assignments `parts`.
unfoldable pub line_of : Context → List Text → List Text → Result EnvError Text
line_of ctx words parts =
    let env = if is_empty parts then [] else join (codes " ") parts ++ codes " " in
    ok (
      codes "cd "
      ++ (remote_dir_q ctx
          ++ (codes " && " ++ (env ++ (cargo_program ctx ++ (codes " " ++ shell_join words))))))

unfoldable pub remote_cargo_words : Context → List Text → Result EnvError Text
unfolding line_of
remote_cargo_words ctx words = do parts ← env_parts ctx; line_of ctx words parts

unfoldable pub remote_cargo_command : Context → CargoSubcommand → List Text → Result EnvError Text
remote_cargo_command ctx cmd args = remote_cargo_words ctx (as_str cmd ∷ args)
