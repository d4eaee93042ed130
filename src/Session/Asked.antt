-- ===== src/Session/Asked.antt =====
-- src/runner.rs and src/transfer.rs: the events of the parts of a run. What each part may ask for is
-- a data type with one constructor for each thing it asks.
use cargo_remote.Prelude.{
  ◌≡◌, refl, ℕ, List, ◌∷◌, ◌++◌, Text, Bytes, codes, true, Bool, Option, none, some, Result, ok,
  err, is_some,
}
use cargo_remote.Transfer.{Compressor}
use cargo_remote.Runner.{Context, excludes, remote_dir, remote_dir_q}
use cargo_remote.Session.{
  SessionError, binary, Event, captured, streamed, finished, synced, fetched, downloaded, made_dir,
  made_private, World, Machine, require_ssh, exec_capture, lift,
}
use cargo_remote.Session.Requirements.{
  version_cmd, require_arch, require_version, check_requirements,
}
use cargo_remote.Session.Installing.{agent_path_q, probe_cmd, install_cmd, verify_cmd}
use cargo_remote.Session.Syncing.{snapshot_dir, tar_line, tar_feed}
use cargo_remote.Session.CopyBack.{name_of, find_cmd, lockfile_cmd, local_profile_dir, download_cmd}
use cargo_remote.Session.Emits.{
  Any, Emits, pure-Emits, lift-Emits, Any-Gives, bind-Emits, if-Emits, event-Emits,
}

module _ (W : World) (M : Machine) (ctx : Context) where
  pub data IsCheck : Event → Type 0 where
    asked_machine : (r : Result SessionError (ℕ × Bytes)) → IsCheck (captured (codes "uname -m") r)
    asked_version :
        (r : Result SessionError (ℕ × Bytes)) → IsCheck (captured (version_cmd W M ctx) r)

  -- The installation of the agent: only the own binary is ever uploaded.
  pub data IsInstall : Event → Type 0 where
    asked_platform :
        (r : Result SessionError (ℕ × Bytes)) → IsInstall (captured (codes "uname -sm") r)
    probed : (r : Result SessionError (ℕ × Bytes)) → IsInstall (captured (probe_cmd ctx) r)
    uploaded :
        (b : Bytes) (r : Result SessionError ℕ)
        → M.own_binary ≡ ok b
        → IsInstall (streamed (install_cmd M ctx) (binary b) r)
    verified : (r : Result SessionError (ℕ × Bytes)) → IsInstall (captured (verify_cmd ctx) r)

  -- A transfer, by one of the strategies, with the project's excludes and into its directory.
  pub data IsSync : Event → Type 0 where
    installed : (e : Event) → IsInstall e → IsSync e
    tested_dir :
        (r : Result SessionError (ℕ × Bytes))
        → IsSync (captured (codes "test -d " ++ remote_dir_q ctx) r)
    sent_archive :
        (c : Compressor) (snapshot : Option Text) (r : Result SessionError ℕ)
        → IsSync (streamed (tar_line W M ctx c (is_some snapshot)) (tar_feed W M ctx c snapshot) r)
    ended_archive :
        (c : Compressor) (snapshot : Option Text) (r : Result SessionError (Unit {0}))
        → IsSync (finished (tar_feed W M ctx c snapshot) r)
    sent_delta :
        (r : Result SessionError (Unit {0}))
        → IsSync (synced (agent_path_q ctx) ctx.project_root (remote_dir ctx) (excludes ctx) true r)
    made_cache :
        (home : Text) (r : Result SessionError (Unit {0})) → IsSync (made_dir (snapshot_dir home) r)
    hid_cache : (dir : Text) (r : Result SessionError (Unit {0})) → IsSync (made_private dir r)

  -- What fetches the products into `target/<profile>`, and the lock file.
  pub data IsBack (profile : Text) : Event → Type 0 where
    installed : (e : Event) → IsInstall e → IsBack profile e
    listed :
        (r : Result SessionError (ℕ × Bytes)) → IsBack profile (captured (find_cmd ctx profile) r)
    made_target :
        (r : Result SessionError (Unit {0}))
        → IsBack profile (made_dir (local_profile_dir ctx profile) r)
    fetched_files :
        (files : List Text) (r : Result SessionError (List Text))
        → IsBack profile
            (fetched (agent_path_q ctx) (remote_dir ctx) files (local_profile_dir ctx profile) r)
    fetched_file :
        (file name : Text) (r : Result SessionError (Unit {0}))
        → name_of file ≡ ok name
        → IsBack profile
            (downloaded (download_cmd ctx file) (local_profile_dir ctx profile ++ (b'/' ∷ name)) r)
    read_lockfile :
        (r : Result SessionError (ℕ × Bytes)) → IsBack profile (captured (lockfile_cmd ctx) r)

  -- The path is the agent's, if there is one.
  abbrev pub IsAgent : Option Text → Type 0
  IsAgent none = Unit {0}
  IsAgent (some p) = p ≡ agent_path_q ctx

  pub captured-Emits :
      (P : Event → Type 0) (line : Text)
      → ((r : Result SessionError (ℕ × Bytes)) → P (captured line r))
      → Emits (agent_path_q ctx) P Any (exec_capture W line)
  unfolding exec_capture
  captured-Emits P line p =
      event-Emits (agent_path_q ctx) P (λ h. captured line (W.capture h line))
        (λ h. W.capture h line) (λ h. p _)

  pub ssh-Emits : (P : Event → Type 0) → Emits (agent_path_q ctx) P Any (require_ssh M)
  unfolding require_ssh
  ssh-Emits P = lift-Emits (agent_path_q ctx) P Any _ (Any-Gives _)

  -- The result itself, as what holds of it.
  pub lift_self-Emits :
      {A : Type 0} (P : Event → Type 0) (r : Result SessionError A)
      → Emits (agent_path_q ctx) P (λ a. r ≡ ok a) (lift r)
  lift_self-Emits P (ok a) = lift-Emits (agent_path_q ctx) P _ (ok a) refl
  lift_self-Emits P (err e) = lift-Emits (agent_path_q ctx) P _ (err e) tt

  pub check_requirements-Emits :
      (warn : Bool) → Emits (agent_path_q ctx) IsCheck Any (check_requirements W M ctx warn)
  unfolding check_requirements require_arch require_version
  check_requirements-Emits warn = if-Emits _ _ _ _ _ _ (pure-Emits _ _ _ tt tt) (
      bind-Emits _ _ Any _ _ _ (ssh-Emits _) λ _ _.
        bind-Emits _ _ Any _ _ _
          (if-Emits _ _ _ _ _ _
            (bind-Emits _ _ Any _ _ _ (captured-Emits _ _ asked_machine)
              λ _ _. lift-Emits _ _ _ _ (Any-Gives _))
            (pure-Emits _ _ _ tt tt))
          λ _ _. version ctx.min_rust_version)
    where
      version : (o : Option Text) → Emits (agent_path_q ctx) IsCheck Any (require_version W M ctx o)
      version none = pure-Emits _ _ _ tt tt
      version (some min) =
          bind-Emits _ _ Any _ _ _ (captured-Emits _ _ asked_version)
            λ _ _. lift-Emits _ _ _ _ (Any-Gives _)
