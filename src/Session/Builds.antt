-- ===== src/Session/Builds.antt =====
-- src/runner.rs: the traces of `build`, `ext`, `clean` and `sync`.
use cargo_remote.Prelude.{◌≡◌, ℕ, List, [], ◌∷◌, ◌++◌, Text, false, Result, ok}
use cargo_remote.Project.{CargoSubcommand}
use cargo_remote.Runner.{Context, remote_cargo_words, remote_cargo_command}
use cargo_remote.Session.{SessionError, Event, executed, World, Machine, Session}
use cargo_remote.Session.Installing.{agent_path_q}
use cargo_remote.Session.Commands.{copies_back, ext_command}
use cargo_remote.Session.Emits.{CellHolds, Emits}
use cargo_remote.Session.Traces.{CommandTrace, Traced}
use cargo_remote.Session.Prepared.{after_line-Traces, ended_there, prepared-Traces}

module _ (W : World) (M : Machine) (ctx : Context) where
  abbrev Ending :
      CargoSubcommand
      → List Text
      → List Event
      → List Event
      → Text
      → ℕ
      → List Event
      → Result SessionError ℕ
      → Type 0
  Ending cmd args cs ss line code es r =
      CommandTrace W M ctx (remote_cargo_command ctx cmd args) (copies_back W M ctx cmd) args
        (cs ++ (ss ++ executed line ctx.interactive (ok code) ∷ es)) r

  -- A cargo extension that is run without a dry run, with a cell that holds no other path than the
  -- agent's, adds events that are, in this order: checks, perhaps none; transfers, only if one is
  -- asked for; and then nothing more, with an error, or its line, executed once and followed by
  -- nothing. When the line is executed and a transfer was asked for, it is done by its strategy: a
  -- sync of the agent that succeeded, or an archive that was sent whole and unpacked with status 0,
  -- comes right before the line. The exit code is the status modulo 256, and an error when ssh
  -- fails on the line.
  pub ext_command-CommandTrace :
      (argv : List Text) (s : Session)
      → ctx.dry_run ≡ false
      → CellHolds (agent_path_q ctx) s.agent
      → Traced W M ctx
          (CommandTrace W M ctx (remote_cargo_words ctx argv) false [])
          s
          (ext_command W M ctx argv s)
  unfolding ext_command
  ext_command-CommandTrace argv s live c =
      prepared-Traces W M ctx _ false false [] _ live
        (after_line-Traces W M ctx _ false [] _ live (ended_there W M ctx _ [])) s c
