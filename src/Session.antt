-- ===== src/Session.antt =====
-- src/runner.rs and src/transfer.rs: what a run does to the world outside, as a list of events with
-- the answers that came. The ssh server, the agent and the local system are one parameter, which
-- answers by what has happened so far; the definitions say what is asked, and when.
pub mod Requirements
pub mod Installing
pub mod Syncing
pub mod Lockfile
pub mod CopyBack
pub mod Commands
pub mod Emits
pub mod Asked
pub mod Transfers
pub mod Fetches
pub mod Succeeds
pub mod Transferred
pub mod Returned
pub mod Traces
pub mod Prepared
pub mod Builds
pub mod Checked
pub mod LockOutcomes
pub mod DryRun
use cargo_remote.Prelude.{
  ℕ, List, [], ◌∷◌, ◌++◌, Text, Bytes, codes, Bool, true, false, ◌&&◌, ◌||◌, not, Option, none,
  some, Result, ok, err, ensure, if◌then◌else◌, ◌==◌, leb, get_elem?, unwrap_or, map,
}
unfoldable pub use cargo_remote.Prelude.Actions.{go_on, ◌>>=◌, ◌>>◌, pure, lift}
use cargo_remote.Prelude.Actions.{Action}
use cargo_remote.Prelude.Words.{words}
use cargo_remote.Agent.Paths.{PathError}
use cargo_remote.Project.{ProfileError}
use cargo_remote.Shell.{EnvError}
use cargo_remote.Transfer.{Compressor}

pub data SessionError : Type 0 where
  no_connection failed bad_remote_version bad_min_version too_old no_home : SessionError
  wrong_arch : Text → Text → SessionError
  tar_failed upload_failed find_failed : ℕ → SessionError
  bad_env : EnvError → SessionError
  bad_profile : ProfileError → SessionError
  bad_name : PathError → SessionError

-- What is sent into `exec_send`: an archive, by the arguments of `tar`, the compressor and whether
-- it is incremental, or the program's own binary.
pub data Feed : Type 0 where
  archive : List Text → Compressor → Bool → Feed
  binary : Bytes → Feed

pub data Event : Type 0 where
  -- `exec_capture`, `exec_term` with its `pty`, `exec_send`, and the end of what was sent
  captured : Text → Result SessionError (ℕ × Bytes) → Event
  executed : Text → Bool → Result SessionError ℕ → Event
  streamed : Text → Feed → Result SessionError ℕ → Event
  finished : Feed → Result SessionError (Unit {0}) → Event
  -- `Agent::start` with `sync` or `fetch` and `quit`, by the quoted path of the agent,
  -- and whether what is not there locally is deleted
  synced : Text → Text → Text → List Text → Bool → Result SessionError (Unit {0}) → Event
  fetched : Text → Text → List Text → Text → Result SessionError (List Text) → Event
  -- `exec_download` into a local file, and directories that are made or made private here
  downloaded : Text → Text → Result SessionError (Unit {0}) → Event
  made_dir made_private : Text → Result SessionError (Unit {0}) → Event

-- The answers to come, by what has happened. `write_file` says whether a write worked and what
-- the file holds then; `rename` whether a rename worked.
pub record World : Type 0 where
  pub capture : List Event → Text → Result SessionError (ℕ × Bytes)
  pub exec_term : List Event → Text → Bool → Result SessionError ℕ
  pub exec_send : List Event → Text → Feed → Result SessionError ℕ
  pub finish : List Event → Feed → Result SessionError (Unit {0})
  pub sync : List Event → Text → Text → Text → List Text → Bool → Result SessionError (Unit {0})
  pub fetch : List Event → Text → Text → List Text → Text → Result SessionError (List Text)
  pub download : List Event → Text → Text → Result SessionError (Unit {0})
  pub make_dir : List Event → Text → Result SessionError (Unit {0})
  pub make_private : List Event → Text → Result SessionError (Unit {0})
  pub write_file : List Event → Text → Bytes → Bool × Option Bytes
  pub rename : List Event → Text → Text → Bool

-- What does not change in a run: whether there is a connection, `std::env::consts::OS` and `ARCH`,
-- the home directory, `version_line()`, the own binary, and the part of the staging name that is
-- made of the process number and the clock. `lossy` is `String::from_utf8_lossy`.
pub record Machine : Type 0 where
  pub connected : Bool
  pub os : Text
  pub arch : Text
  pub home : Option Text
  pub version_line : Result SessionError Text
  pub own_binary : Result SessionError Bytes
  pub staging_tag : Text
  pub lossy : Bytes → Text

-- The lock file, the copy for review, and the staging file, in the project's directory.
pub record Lockfiles : Type 0 where
  pub local : Option Bytes
  pub review : Option Bytes
  pub staging : Option Bytes

-- The state: the events so far, the cell `agent` of the context, and the lock files.
pub record Session : Type 0 where
  pub events : List Event
  pub agent : Option (Option Text)
  pub lockfiles : Lockfiles

abbrev pub Run : Type 0 → Type 0
Run A = Action SessionError Session A

unfoldable pub record_event : Event → Session → Session
record_event e s = record s { events = s.events ++ e ∷ [] }

-- `char::is_control`, and what `display_safe` of src/agent.rs makes of a text
unfoldable pub is_control : ℕ → Bool
is_control c = leb c 0x1f || (leb 0x7f c && leb c 0x9f)

unfoldable pub display_safe : Text → Text
unfolding is_control
display_safe s =
    map
      (λ c. if (is_control c && (not (c == 10) && not (c == 9))) || (c == 0x7f) then 0xfffd else c)
      s

-- The `n`-th word of an output, or nothing.
unfoldable pub word_at : ℕ → Text → Text
unfolding words
word_at n s = unwrap_or (get_elem? (words s) n) []

-- `require_ssh`
unfoldable pub require_ssh : Machine → Run (Unit {0})
require_ssh M = lift (ensure M.connected no_connection)

module _ (W : World) where
  unfoldable pub exec_capture : Text → Run (ℕ × Bytes)
  unfolding record_event
  exec_capture line s = let r = W.capture s.events line in (r, record_event (captured line r) s)

  unfoldable pub exec_term : Text → Bool → Run ℕ
  unfolding record_event
  exec_term line pty s =
      let r = W.exec_term s.events line pty in (r, record_event (executed line pty r) s)

  unfoldable pub exec_send : Text → Feed → Run ℕ
  unfolding record_event
  exec_send line feed s =
      let r = W.exec_send s.events line feed in (r, record_event (streamed line feed r) s)

  -- `producer.join()`, with what `run_tar_pipeline` returned
  unfoldable pub finish_feed : Feed → Run (Unit {0})
  unfolding record_event
  finish_feed feed s = let r = W.finish s.events feed in (r, record_event (finished feed r) s)

  unfoldable pub agent_sync : Text → Text → Text → List Text → Bool → Run (Unit {0})
  unfolding record_event
  agent_sync agent_q root dir excludes delete s =
      let r = W.sync s.events agent_q root dir excludes delete in
      (r, record_event (synced agent_q root dir excludes delete r) s)

  unfoldable pub agent_fetch : Text → Text → List Text → Text → Run (List Text)
  unfolding record_event
  agent_fetch agent_q dir files dest s =
      let r = W.fetch s.events agent_q dir files dest in
      (r, record_event (fetched agent_q dir files dest r) s)

  unfoldable pub exec_download : Text → Text → Run (Unit {0})
  unfolding record_event
  exec_download line dest s =
      let r = W.download s.events line dest in (r, record_event (downloaded line dest r) s)

  unfoldable pub create_dir_all : Text → Run (Unit {0})
  unfolding record_event
  create_dir_all dir s = let r = W.make_dir s.events dir in (r, record_event (made_dir dir r) s)

  unfoldable pub set_private : Text → Run (Unit {0})
  unfolding record_event
  set_private dir s =
      let r = W.make_private s.events dir in (r, record_event (made_private dir r) s)
