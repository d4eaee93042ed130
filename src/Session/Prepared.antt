-- ===== src/Session/Prepared.antt =====
-- src/runner.rs: a command up to the answer to its remote line, as a trace.
use cargo_remote.Prelude.{
  ◌≡◌, refl, sym, ◌∙◌, append-nil, append_assoc, ℕ, List, [], ◌∷◌, ◌++◌, Text, Bool, false, Result,
  ok, err, All, subst, ◌⊎◌, inl, inr,
}
use cargo_remote.Shell.{EnvError}
use cargo_remote.Runner.{Context}
use cargo_remote.Session.{
  SessionError, Event, executed, World, Machine, Session, Run, record_event, go_on, ◌>>=◌, ◌>>◌,
  pure,
}
use cargo_remote.Session.Requirements.{check_requirements}
use cargo_remote.Session.Installing.{agent_path_q}
use cargo_remote.Session.Commands.{exit_code, run_line, sync_if_asked}
use cargo_remote.Session.Emits.{Any, CellHolds}
use cargo_remote.Session.Asked.{IsCheck, check_requirements-Emits}
use cargo_remote.Session.Traces.{
  IsSynced, CommandTrace, stopped, broken, ended, Traced, Traces, bind-Traces, sync_if_asked-Emits,
  sync_if_asked-Transferred, run_line_cases,
}
use cargo_remote.Session.Succeeds.{Emits-Succeeds}

module _ (W : World) (M : Machine) (ctx : Context) where
  -- What follows the remote command, by its answer.
  abbrev pub Follows : Result EnvError Text → Bool → List Text → (ℕ → Run ℕ) → Type 0
  Follows built fetches args k =
      (cs ss : List Event)
      → All (IsCheck W M ctx) cs
      → IsSynced W M ctx ss
      → (line : Text) → built ≡ ok line
      → (code : ℕ) → (t : Session) → CellHolds (agent_path_q ctx) t.agent
      → Traced W M ctx
          (λ es r.
            CommandTrace W M ctx built fetches args
              (cs ++ (ss ++ executed line ctx.interactive (ok code) ∷ es)) r)
          t (k code t)

  pub after_line-Traces :
      (built : Result EnvError Text) (fetches : Bool) (args : List Text) (k : ℕ → Run ℕ)
      → ctx.dry_run ≡ false
      → Follows built fetches args k
      → (cs ss : List Event) → All (IsCheck W M ctx) cs
      → IsSynced W M ctx ss
      → Traces W M ctx
          (λ es r. CommandTrace W M ctx built fetches args (cs ++ (ss ++ es)) r)
          (run_line W M ctx built >>= k)
  unfolding go_on record_event
  after_line-Traces built fetches args k live follow cs ss ac hs s c =
      of (run_line_cases W M ctx built s live)
    where
      T : List Event → Result SessionError ℕ → Type 0
      T es r = CommandTrace W M ctx built fetches args (cs ++ (ss ++ es)) r

      answered :
          (line : Text)
          → built ≡ ok line
          → (r : Result SessionError ℕ)
          → Traced W M ctx T s (go_on r (record_event (executed line ctx.interactive r) s) k)
      answered line eq (err e) = record {
        added = executed line ctx.interactive (err e) ∷ [];
        appended = refl;
        traced = broken cs ss line e ac hs eq;
      }
      answered line eq (ok code) =
          let next =
            follow cs ss ac hs line eq code
              (record_event (executed line ctx.interactive (ok code)) s) c in
          record {
            added = executed line ctx.interactive (ok code) ∷ next.added;
            appended =
                next.appended
                ∙ append_assoc s.events (executed line ctx.interactive (ok code) ∷ []) next.added;
            traced = next.traced;
          }

      of :
          ((e : SessionError) × (run_line W M ctx built s ≡ (err e, s)))
            ⊎ ((line : Text) × ((built ≡ ok line)
                  × (run_line W M ctx built s ≡ (
                    W.exec_term s.events line ctx.interactive,
                    record_event
                        (executed line ctx.interactive (W.exec_term s.events line ctx.interactive))
                        s,
                  ))))
          → Traced W M ctx T s (go_on (run_line W M ctx built s).0 (run_line W M ctx built s).1 k)
      of (inl (e, eq)) =
          subst (λ h. Traced W M ctx T s (go_on h.0 h.1 k)) (sym eq)
            (record {
              added = [];
              appended = sym (append-nil s.events);
              traced =
                  subst (λ l. CommandTrace W M ctx built fetches args (cs ++ l) (err e))
                    (sym (append-nil ss)) (stopped cs ss e ac hs.0);
            })
      of (inr (line, (eq, ran))) =
          subst (λ h. Traced W M ctx T s (go_on h.0 h.1 k)) (sym ran)
            (answered line eq (W.exec_term s.events line ctx.interactive))

  -- Nothing follows the command.
  pub ended_there :
      (built : Result EnvError Text) (args : List Text)
      → Follows built false args (λ code. pure (exit_code code))
  ended_there built args cs ss ac hs line eq code t c = record {
    added = [];
    appended = sym (append-nil t.events);
    traced = ended cs ss line code ac hs eq refl;
  }

  -- Checks, then the transfer if it is asked for, then the rest.
  pub prepared-Traces :
      (built : Result EnvError Text) (fetches warn : Bool) (args : List Text) (k : Run ℕ)
      → ctx.dry_run ≡ false
      → ((cs ss : List Event)
          → All (IsCheck W M ctx) cs
          → IsSynced W M ctx ss
          → Traces W M ctx (λ es r. CommandTrace W M ctx built fetches args (cs ++ (ss ++ es)) r) k)
      → Traces W M ctx
          (CommandTrace W M ctx built fetches args)
          (do check_requirements W M ctx warn; sync_if_asked W M ctx; k)
  prepared-Traces built fetches warn args k live rest =
      bind-Traces W M ctx _ _ Any _ _ _ (check_requirements-Emits W M ctx warn)
        (Emits-Succeeds _ _ Any _ (check_requirements-Emits W M ctx warn))
        (λ cs ac e.
          subst (λ l. CommandTrace W M ctx built fetches args l (err e)) (append-nil cs)
            (stopped cs [] e ac tt))
        λ cs ac _ _.
          bind-Traces W M ctx _ _ Any _ _ _ (sync_if_asked-Emits W M ctx)
            (sync_if_asked-Transferred W M ctx live) (λ ss hs e. stopped cs ss e ac hs)
            λ ss hs _ done. rest cs ss ac (hs, done)
