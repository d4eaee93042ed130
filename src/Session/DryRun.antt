-- ===== src/Session/DryRun.antt =====
-- src/runner.rs: `--dry-run`.
use cargo_remote.Prelude.{
  ◌≡◌, refl, ap, ◌∙◌, ℕ, List, Text, Bool, true, false, ◌||◌, not, Option, none, some, Result, ok,
  err, if◌then◌else◌, is_some,
}
use cargo_remote.Project.{CargoSubcommand}
use cargo_remote.Shell.{EnvError}
use cargo_remote.Transfer.{Compressor, no_compressor, Transfer, auto, delta, tar, tar_incremental}
use cargo_remote.Runner.{Context}
use cargo_remote.Session.{
  SessionError, World, Machine, Session, Run, go_on, ◌>>=◌, ◌>>◌, pure, lift,
}
use cargo_remote.Session.Requirements.{check_requirements, exec_remote}
use cargo_remote.Session.Syncing.{
  snapshot_path, home_of, tar_sync, delta_sync, auto_sync, prepare_cache, incremental_sync, sync_by,
  do_sync,
}
use cargo_remote.Session.CopyBack.{profile_of, copy_back_binaries}
use cargo_remote.Session.Commands.{
  exit_code, line_or, run_line, sync_if_asked, sync_command, clean_command, after_command,
  build_command, ext_command,
}
use cargo_remote.Session.Emits.{Gives, Any, Any-Gives}

-- Nothing is asked or written, and a result is such.
abbrev pub Unasked : {A : Type 0} → (A → Type 0) → Run A → Type 0
Unasked Q m = (s : Session) → ((m s).1 ≡ s) × Gives Q (m s).0

bind-Unasked :
    {A B : Type 0} (Q : A → Type 0) (R : B → Type 0) (m : Run A) (k : A → Run B)
    → Unasked Q m
    → ((a : A) → Q a → Unasked R (k a))
    → Unasked R (m >>= k)
unfolding go_on
bind-Unasked {A} Q R m k um uk s = go (m s).0 (m s).1 (um s).0 (um s).1
  where
    go :
        (r : Result SessionError A) (t : Session)
        → t ≡ s
        → Gives Q r
        → ((go_on r t k).1 ≡ s) × Gives R (go_on r t k).0
    go (ok a) t eq q = ((uk a q t).0 ∙ eq, (uk a q t).1)
    go (err e) t eq q = (eq, tt)

if-Unasked :
    {A : Type 0} (Q : A → Type 0) (b : Bool) (m n : Run A)
    → b ≡ true
    → Unasked Q m
    → Unasked Q (if b then m else n)
if-Unasked Q true m n h u = u
if-Unasked Q false m n h u = cc

either-Unasked :
    {A : Type 0} (Q : A → Type 0) (b : Bool) (m n : Run A)
    → Unasked Q m
    → Unasked Q n
    → Unasked Q (if b then m else n)
either-Unasked Q true m n um un = um
either-Unasked Q false m n um un = un

lift-Unasked : {A : Type 0} (r : Result SessionError A) → Unasked Any (lift r)
lift-Unasked r s = (refl, Any-Gives r)

module _ (W : World) (M : Machine) (ctx : Context) (dry : ctx.dry_run ≡ true) where
  check_requirements-Unasked : (warn : Bool) → Unasked Any (check_requirements W M ctx warn)
  unfolding check_requirements
  check_requirements-Unasked warn =
      if-Unasked _ _ _ _
        (ap (λ b. b || not ((is_some ctx.arch || warn) || is_some ctx.min_rust_version)) dry)
        (lift-Unasked (ok tt))

  tar_sync-Unasked :
      (c : Compressor) (snapshot : Option Text) → Unasked Any (tar_sync W M ctx c snapshot)
  unfolding tar_sync
  tar_sync-Unasked c snapshot = if-Unasked _ _ _ _ dry (lift-Unasked (ok tt))

  do_sync-Unasked : Unasked Any (do_sync W M ctx)
  unfolding do_sync sync_by auto_sync delta_sync incremental_sync prepare_cache
  do_sync-Unasked = by_strategy ctx.transfer
    where
      by_strategy : (t : Transfer) → Unasked Any (sync_by W M ctx t)
      by_strategy auto = if-Unasked _ _ _ _ dry (lift-Unasked (ok tt))
      by_strategy delta = if-Unasked _ _ _ _ dry (lift-Unasked (ok tt))
      by_strategy (tar c) = tar_sync-Unasked c none
      by_strategy tar_incremental = bind-Unasked Any _ _ _ (lift-Unasked (home_of M.home)) λ home _.
          bind-Unasked Any _ _ _ (if-Unasked _ _ _ _ dry (lift-Unasked (ok tt)))
            λ _ _. tar_sync-Unasked no_compressor (some (snapshot_path ctx home))

  sync_if_asked-Unasked : Unasked Any (sync_if_asked W M ctx)
  unfolding sync_if_asked
  sync_if_asked-Unasked = either-Unasked _ _ _ _ do_sync-Unasked (lift-Unasked (ok tt))

  run_line-Unasked :
      (built : Result EnvError Text) → Unasked (λ code. code ≡ 0) (run_line W M ctx built)
  unfolding run_line exec_remote
  run_line-Unasked built =
      bind-Unasked Any _ _ _ (lift-Unasked (line_or built))
        λ line _. if-Unasked _ _ _ _ dry (λ s. (refl, refl))

  copy_back_binaries-Unasked : (args : List Text) → Unasked Any (copy_back_binaries W M ctx args)
  unfolding copy_back_binaries
  copy_back_binaries-Unasked args =
      bind-Unasked Any _ _ _ (lift-Unasked (profile_of args))
        λ p _. if-Unasked _ _ _ _ dry (lift-Unasked (ok tt))

  exit_code-Unasked : (code : ℕ) → code ≡ 0 → Unasked (λ n. n ≡ 0) (pure (exit_code code))
  unfolding exit_code
  exit_code-Unasked code z s = (refl, ap exit_code z)

  after_command-Unasked :
      (cmd : CargoSubcommand) (args : List Text) (code : ℕ)
      → code ≡ 0
      → Unasked (λ n. n ≡ 0) (after_command W M ctx cmd args code)
  unfolding after_command
  after_command-Unasked cmd args code z =
      either-Unasked _ _ _ _
        (bind-Unasked Any _ _ _
          (either-Unasked _ _ _ _ (copy_back_binaries-Unasked args) (lift-Unasked (ok tt)))
          λ _ _ s. (refl, refl))
        (exit_code-Unasked code z)

  -- On a dry run every command asks nothing of the server or the agent and writes nothing here, and
  -- an exit code that it gives is 0: `build`, `ext`, `clean` and `sync`.
  pub dry_run-Unasked :
      ((cmd : CargoSubcommand) (args : List Text)
        → Unasked (λ n. n ≡ 0) (build_command W M ctx cmd args))
      × (((argv : List Text) → Unasked (λ n. n ≡ 0) (ext_command W M ctx argv))
          × (Unasked (λ n. n ≡ 0) (clean_command W M ctx)
              × Unasked (λ n. n ≡ 0) (sync_command W M ctx)))
  unfolding build_command ext_command clean_command sync_command
  dry_run-Unasked = (
    (λ cmd args.
        bind-Unasked Any _ _ _
          (either-Unasked _ _ _ _
            (bind-Unasked Any _ _ _ (lift-Unasked (profile_of args)) λ _ _. lift-Unasked (ok tt))
            (lift-Unasked (ok tt)))
          λ _ _. checked _ _ (
            bind-Unasked Any _ _ _ sync_if_asked-Unasked
              λ _ _. ran _ _ (after_command-Unasked cmd args))),
    (
      (λ argv.
          checked _ _
            (bind-Unasked Any _ _ _ sync_if_asked-Unasked λ _ _. ran _ _ exit_code-Unasked)),
      (
        checked _ _ (ran _ _ exit_code-Unasked),
        checked _ _ (bind-Unasked Any _ _ _ do_sync-Unasked λ _ _ s. (refl, refl)),
      ),
    ),
  )
    where
      checked :
          (warn : Bool) (k : Run ℕ)
          → Unasked (λ n. n ≡ 0) k
          → Unasked (λ n. n ≡ 0) (check_requirements W M ctx warn >> k)
      checked warn k u = bind-Unasked Any _ _ _ (check_requirements-Unasked warn) λ _ _. u

      ran :
          (built : Result EnvError Text) (k : ℕ → Run ℕ)
          → ((code : ℕ) → code ≡ 0 → Unasked (λ n. n ≡ 0) (k code))
          → Unasked (λ n. n ≡ 0) (run_line W M ctx built >>= k)
      ran built k u = bind-Unasked (λ code. code ≡ 0) _ _ _ (run_line-Unasked built) u
