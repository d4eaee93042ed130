-- ===== src/Launch/Targets.antt =====
-- src/main.rs and src/config.rs: where a run goes, and who can choose it.
use cargo_remote.Prelude.{
  ◌≡◌, refl, sym, ap, ◌∙◌, subst, List, Text, codes, Bool, true, false, not, ◌&&◌, Option, none,
  some, Result, ok, err, ◌>>◌, ensure, or_else, unwrap_or, bind_ok, ok-injective, err-ne-ok, arith,
}
use cargo_remote.Cli.{RemoteOpts, merge}
use cargo_remote.Config.{
  Config, LoadOutcome, ReadResult, load_from, overlay, default_config, is_trusted,
}
use cargo_remote.Config.Trust.{SameRemoteKeys, load_untrusted}
use cargo_remote.Shell.{EnvError, validate_env_entries, is_valid_cargo_path}
use cargo_remote.Shell.Reader.{sh_read}
use cargo_remote.Runner.{Context, remote_cargo_words}
use cargo_remote.Runner.CommandLine.{command_tokens, remote_line}
use cargo_remote.RunLock.{LockError}
use cargo_remote.Launch.{
  ConnInfo, Process, ProjectAt, LaunchError, Launched, cli_or_env, host_of, remote_dir_of,
  cargo_path_of, toolchain_of, env_of, copy_back_of, interactive_of, context_of, some_or,
  toolchain_ok, checked_env, session, take_lock, build_context, default_cargo_path,
}

-- What `build_context` has found out when it returns a context.
pub record Facts (p : Process) (project : ProjectAt) (opts : RemoteOpts) (out : LoadOutcome)
    (ctx : Context) : Type 0 where
  pub host_given : host_of p opts out.config ≡ some ctx.host
  pub assembled : ctx ≡ context_of p project opts out ctx.host
  pub toolchain_valid : toolchain_ok ctx.toolchain ≡ true
  pub cargo_path_valid : is_valid_cargo_path ctx.cargo_path ≡ true
  pub env_valid : validate_env_entries ctx.env ≡ ok tt

ensured :
    {E A : Type 0} {y : A} (test : Bool) (e : E) (k : Result E A)
    → (ensure test e >> k) ≡ ok y
    → (test ≡ true) × (k ≡ ok y)
ensured true e k h = (refl, h)
ensured false e k h = absurd (err-ne-ok h)

some_or_ok : {A : Type 0} {y : A} (o : Option A) (e : LaunchError) → some_or o e ≡ ok y → o ≡ some y
unfolding some_or
some_or_ok none e h = absurd (err-ne-ok h)
some_or_ok (some x) e h = ap some (ok-injective h)

checked_env_ok : (r : Result EnvError (Unit {0})) → checked_env r ≡ ok tt → r ≡ ok tt
unfolding checked_env
checked_env_ok (ok tt) h = refl
checked_env_ok (err e) h = absurd (err-ne-ok h)

module _ (connect : Text → Bool → Result Text ConnInfo)
    (lock : Text → Text → Result LockError (Unit {0})) where
  build_context-Facts :
      (p : Process) (project : ProjectAt) (global local : RemoteOpts) (connects : Bool)
      (out : LoadOutcome) (launched : Launched)
      → build_context connect lock p project global local connects out ≡ ok launched
      → Facts p project (merge global local) out launched.context
  unfolding build_context context_of
  build_context-Facts p project global local connects out launched h =
      let opts = merge global local in
      let cfg = out.config in
      let (host, (h1, found)) = bind_ok (some_or (host_of p opts cfg) LaunchError.no_host) _ h in
      let (tc, h2) = ensured (toolchain_ok (toolchain_of opts cfg)) _ _ h1 in
      let (path, h3) = ensured (is_valid_cargo_path (cargo_path_of p cfg)) _ _ h2 in
      let (u, (h4, env)) = bind_ok (checked_env (validate_env_entries (env_of opts cfg))) _ h3 in
      let (info, (h5, opened)) =
        bind_ok (session connect lock (connects && not opts.dry_run) host (interactive_of p)) _
          h4 in
      let (v, (h6, locked)) =
        bind_ok (take_lock connect lock (connects && not opts.dry_run) host project.name) _ h5 in
      let made = ap (λ l. l.context) (ok-injective h6) in
      subst (Facts p project opts out) made (record {
        host_given = some_or_ok (host_of p opts cfg) LaunchError.no_host found;
        assembled = refl;
        toolchain_valid = tc;
        cargo_path_valid = path;
        env_valid = checked_env_ok (validate_env_entries (env_of opts cfg)) env;
      })

  -- Whatever the options, the configuration and the environment are: when `build_context` returns a
  -- context, there is a remote line for every cargo command, and a shell reads it as exactly the
  -- intended words.
  pub build_context-line :
      (p : Process) (project : ProjectAt) (global local : RemoteOpts) (connects : Bool)
      (out : LoadOutcome) (launched : Launched) (home : Text) (words : List Text)
      → build_context connect lock p project global local connects out ≡ ok launched
      → (line : Text) × (remote_cargo_words launched.context words ≡ ok line)
        × (sh_read home line ≡ some (command_tokens home launched.context words))
  build_context-line p project global local connects out launched home words h =
      remote_line home launched.context words
        (build_context-Facts p project global local connects out launched h).env_valid

-- Two runs go to the same place: host, directory and cargo, and both or neither copy files back.
pub record SameTarget (a b : Context) : Type 0 where
  pub host : a.host ≡ b.host
  pub remote_base : a.remote_base ≡ b.remote_base
  pub cargo_path : a.cargo_path ≡ b.cargo_path
  pub copy_back : a.copy_back ≡ b.copy_back

some_injective : {x y : Text} → ◌≡◌ {A = Option Text} (some x) (some y) → x ≡ y
some_injective h = cc

same_copy_back :
    (p : Process) (opts : RemoteOpts) (out other : LoadOutcome)
    → out.config.copy_back ≡ other.config.copy_back
    → out.host_from_project ≡ other.host_from_project
    → (copy_back_of p opts out).0 ≡ (copy_back_of p opts other).0
unfolding copy_back_of
same_copy_back p opts out other e f = ground (arith)

Facts-SameTarget :
    (p : Process) (project : ProjectAt) (opts : RemoteOpts) (out other : LoadOutcome)
    (a b : Context)
    → SameRemoteKeys out.config other.config
    → out.host_from_project ≡ other.host_from_project
    → Facts p project opts out a
    → Facts p project opts other b
    → SameTarget a b
unfolding context_of host_of remote_dir_of cargo_path_of
Facts-SameTarget p project opts out other a b same from f g = record {
  host =
      some_injective
        (sym f.host_given ∙ ap (λ h. or_else (cli_or_env p opts) h) same.host ∙ g.host_given);
  remote_base =
      ap (λ c. c.remote_base) f.assembled
      ∙ ap (λ d. unwrap_or (or_else opts.remote_dir d) (codes "~/remote-builds")) same.remote_dir
      ∙ sym (ap (λ c. c.remote_base) g.assembled);
  cargo_path =
      ap (λ c. c.cargo_path) f.assembled
      ∙ ap (λ d. unwrap_or d (default_cargo_path p)) same.cargo_path
      ∙ sym (ap (λ c. c.cargo_path) g.assembled);
  copy_back =
      ap (λ c. c.copy_back) f.assembled
      ∙ same_copy_back p opts out other same.copy_back from
      ∙ sym (ap (λ c. c.copy_back) g.assembled);
}

both_keys : (c d e : Config) → SameRemoteKeys c e → SameRemoteKeys d e → SameRemoteKeys c d
both_keys c d e f g = record {
  host = f.host ∙ sym g.host;
  remote_dir = f.remote_dir ∙ sym g.remote_dir;
  cargo_path = f.cargo_path ∙ sym g.cargo_path;
  copy_back = f.copy_back ∙ sym g.copy_back;
  trust = f.trust ∙ sym g.trust;
}

-- A project that is not trusted does not choose where a run goes: with one global configuration
-- that does not grant trust, the same options and the same environment, two runs with different
-- files in the project, if both get a context, have the same host, remote directory and cargo, and
-- both or neither copy files back.
pub untrusted_project-SameTarget :
    (connect : Text → Bool → Result Text ConnInfo)
    (lock : Text → Text → Result LockError (Unit {0})) (p : Process) (project : ProjectAt)
    (global local : RemoteOpts) (connects : Bool) (file : Option ReadResult) (g : Option Config)
    (dot_config at_root dot_config' at_root' : ReadResult) (out out' : LoadOutcome) (a b : Launched)
    → unwrap_or file (ok none) ≡ ok g
    → is_trusted (overlay default_config g) ≡ false
    → load_from file dot_config at_root ≡ ok out
    → load_from file dot_config' at_root' ≡ ok out'
    → build_context connect lock p project global local connects out ≡ ok a
    → build_context connect lock p project global local connects out' ≡ ok b
    → SameTarget a.context b.context
untrusted_project-SameTarget connect lock p project global local connects file g d r d' r' out out'
      a b read untrusted l l' h h' =
    let (keys, from) = load_untrusted file g d r out read untrusted l in
    let (keys', from') = load_untrusted file g d' r' out' read untrusted l' in
    Facts-SameTarget p project (merge global local) out out' a.context b.context
      (both_keys out.config out'.config (overlay default_config g) keys keys') (from ∙ sym from')
      (build_context-Facts connect lock p project global local connects out a h)
      (build_context-Facts connect lock p project global local connects out' b h')
