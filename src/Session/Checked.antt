-- ===== src/Session/Checked.antt =====
-- src/runner.rs: what passed checks say of the remote.
use cargo_remote.Prelude.{
  ◌≡◌, refl, sym, ap, ◌∙◌, ℕ, Text, Bytes, codes, Bool, true, false, ◌||◌, not, some, Result, ok,
  err, ensure, List, if◌then◌else◌, text_eq→eq, is_some,
}
use cargo_remote.Project.{CargoSubcommand}
use cargo_remote.Session.Commands.{sync_command, clean_command, build_command, ext_command}
use cargo_remote.Runner.{Context}
use cargo_remote.Runner.Version.{
  Version, VersionError, norm_arch, resolve_arch, parse_version, version_ltb,
}
use cargo_remote.Session.{
  SessionError, too_old, Event, World, Machine, Session, Run, require_ssh, exec_capture, ◌>>◌, pure,
}
use cargo_remote.Prelude.Actions.{go_on_ok}
use cargo_remote.Session.Requirements.{
  compare_versions, check_arch, check_version, version_cmd, require_arch, require_version,
  check_requirements,
}

module _ (W : World) (M : Machine) (ctx : Context) where
  -- `uname -m` was asked, and names the architecture that is configured.
  pub data ArchMet (want : Text) : Type 0 where
    arch_met :
        (h : List Event) (code : ℕ) (out : Bytes)
        → W.capture h (codes "uname -m") ≡ ok (code, out)
        → norm_arch (M.lossy out) ≡ resolve_arch M.arch want
        → ArchMet want

  -- `cargo --version` was asked, and what it says is no older than the minimum.
  pub data VersionMet (min : Text) : Type 0 where
    version_met :
        (h : List Event) (code : ℕ) (out : Bytes) (got want : Version)
        → W.capture h (version_cmd W M ctx) ≡ ok (code, out)
        → parse_version (M.lossy out) ≡ ok got
        → parse_version min ≡ ok want
        → version_ltb got want ≡ false
        → VersionMet min

  compare_versions_ok :
      (got want : Result VersionError Version)
      → compare_versions got want ≡ ok tt
      → (g w : Version) × ((got ≡ ok g) × ((want ≡ ok w) × (version_ltb g w ≡ false)))
  unfolding compare_versions
  compare_versions_ok (err e) want h = cc
  compare_versions_ok (ok g) (err e) h = cc
  compare_versions_ok (ok g) (ok w) h = (g, w, (refl, (refl, go (version_ltb g w) h)))
    where
      go :
          (b : Bool)
          → ◌≡◌ {A = Result SessionError (Unit {0})} (ensure (not b) too_old) (ok tt)
          → b ≡ false
      go true h = cc
      go false h = refl

  ensure-true :
      (b : Bool) (e : SessionError)
      → ◌≡◌ {A = Result SessionError (Unit {0})} (ensure b e) (ok tt)
      → b ≡ true
  ensure-true true e h = refl
  ensure-true false e h = cc

  require_arch_met :
      (want : Text)
      → ctx.arch ≡ some want
      → (s : Session) → (require_arch W M ctx s).0 ≡ ok tt
      → ArchMet want
  unfolding require_arch exec_capture check_arch
  require_arch_met want eq s h =
      let ((code, out), (asked, rest)) = go_on_ok _ _ _ h in
      arch_met s.events code out asked (
        text_eq→eq _ _ (
          ensure-true _ _ (
            ap (λ a. check_arch M a (norm_arch (M.lossy out))) (sym eq)
            ∙ ap (λ r. r.0) (sym rest)
            ∙ h)))

  require_version_met :
      (min : Text) (s : Session) → (require_version W M ctx (some min) s).0 ≡ ok tt → VersionMet min
  unfolding require_version exec_capture check_version
  require_version_met min s h =
      let ((code, out), (asked, rest)) = go_on_ok _ _ _ h in
      let (g, w, (got, (want, newer))) = compare_versions_ok _ _ (ap (λ r. r.0) (sym rest) ∙ h) in
      version_met s.events code out g w asked got want newer

  -- Each check that was due passed.
  abbrev asks_arch : Bool → Bool
  asks_arch warn = is_some ctx.arch || warn

  due_checks :
      (warn : Bool) (s : Session)
      → ctx.dry_run ≡ false
      → (check_requirements W M ctx warn s).0 ≡ ok tt
      → (asks_arch warn || is_some ctx.min_rust_version) ≡ true
      → ((if asks_arch warn then require_arch W M ctx else pure tt) s).0 ≡ ok tt
        × ((t : Session) × ((require_version W M ctx ctx.min_rust_version t).0 ≡ ok tt))
  unfolding check_requirements require_ssh
  due_checks warn s live h due =
      let body = passed ctx.dry_run (asks_arch warn || is_some ctx.min_rust_version) live due h in
      let (_, (_, at_arch)) = go_on_ok _ _ _ body in
      let rest = ap (λ r. r.0) (sym at_arch) ∙ body in
      let (_, (arch, at_version)) = go_on_ok _ _ _ rest in
      (arch, (_, ap (λ r. r.0) (sym at_version) ∙ rest))
    where
      checks : Run (Unit {0})
      checks = do
        require_ssh M
        (if asks_arch warn then require_arch W M ctx else pure tt)
        require_version W M ctx ctx.min_rust_version

      passed :
          (d a : Bool)
          → d ≡ false
          → a ≡ true
          → ((if d || not a then pure tt else checks) s).0 ≡ ok tt
          → (checks s).0 ≡ ok tt
      passed true a p q h = cc
      passed false true p q h = h
      passed false false p q h = cc

  -- What the configuration asks of the remote was asked and is so.
  abbrev pub RequirementsMet : Type 0
  RequirementsMet =
      ((want : Text) → ctx.arch ≡ some want → ArchMet want)
      × ((min : Text) → ctx.min_rust_version ≡ some min → VersionMet min)

  -- When the checks of a run that is not dry pass, the remote has the configured architecture and
  -- a version of its toolchain that is not older than the configured minimum.
  check_requirements-Met :
      (warn : Bool) (s : Session)
      → ctx.dry_run ≡ false
      → (check_requirements W M ctx warn s).0 ≡ ok tt
      → RequirementsMet
  check_requirements-Met warn s live h = (
    (λ want eq. require_arch_met want eq s (
        asked _ (arch_due want eq)
          (due_checks warn s live h
            (ap (λ b. b || is_some ctx.min_rust_version) (arch_due want eq))).0)),
    λ min eq.
        let (t, passed) =
          (due_checks warn s live h
            (ap (λ o. asks_arch warn || is_some o) eq ∙ or_true (asks_arch warn))).1 in
        require_version_met min t (ap (λ o. (require_version W M ctx o t).0) (sym eq) ∙ passed),
  )
    where
      arch_due : (want : Text) → ctx.arch ≡ some want → asks_arch warn ≡ true
      arch_due want eq = ap (λ o. is_some o || warn) eq

      or_true : (b : Bool) → (b || true) ≡ true
      or_true true = refl
      or_true false = refl

      asked :
          (b : Bool)
          → b ≡ true
          → ((if b then require_arch W M ctx else pure tt) s).0 ≡ ok tt
          → (require_arch W M ctx s).0 ≡ ok tt
      asked true p h = h
      asked false p h = cc

  checked_first :
      (warn : Bool) (k : Run ℕ) (s : Session) (n : ℕ)
      → ctx.dry_run ≡ false
      → ((check_requirements W M ctx warn >> k) s).0 ≡ ok n
      → RequirementsMet
  checked_first warn k s n live h = check_requirements-Met warn s live (go_on_ok _ _ _ h).1.0

  -- When a command that is not dry ends with an exit code, whichever it is, the remote was asked
  -- for its architecture and for the version of its toolchain, as far as the configuration says so,
  -- and it has that architecture and a version that is not older: `build`, `ext`, `clean` and `sync`.
  pub commands-RequirementsMet :
      (s : Session) (n : ℕ)
      → ctx.dry_run ≡ false
      → ((cmd : CargoSubcommand) (args : List Text)
          → (build_command W M ctx cmd args s).0 ≡ ok n
          → RequirementsMet)
        × (((argv : List Text) → (ext_command W M ctx argv s).0 ≡ ok n → RequirementsMet)
            × (((clean_command W M ctx s).0 ≡ ok n → RequirementsMet)
                × ((sync_command W M ctx s).0 ≡ ok n → RequirementsMet)))
  unfolding build_command ext_command clean_command sync_command
  commands-RequirementsMet s n live = (
    (λ cmd args h.
        let (_, (_, checks)) = go_on_ok _ _ _ h in
        checked_first _ _ _ n live (ap (λ r. r.0) (sym checks) ∙ h)),
    (
      (λ argv h. checked_first _ _ s n live h),
      ((λ h. checked_first _ _ s n live h), λ h. checked_first _ _ s n live h),
    ),
  )
