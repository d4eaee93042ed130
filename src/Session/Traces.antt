-- ===== src/Session/Traces.antt =====
-- src/runner.rs: what a whole command does, from its checks to the products it fetches.
use cargo_remote.Prelude.{
  ◌≡◌, refl, sym, ap, subst, ◌∙◌, append_assoc, ℕ, List, [], ◌∷◌, ◌++◌, Text, Bool, true, false,
  ◌&&◌, Result, ok, err, ensure, All, if◌then◌else◌, ◌==◌, ◌⊎◌, inl, inr,
}
use cargo_remote.Shell.{EnvError}
use cargo_remote.Runner.{Context}
use cargo_remote.Session.{
  SessionError, no_connection, Event, executed, World, Machine, Session, Run, record_event,
  require_ssh, exec_term, go_on, ◌>>=◌, ◌>>◌, pure, lift,
}
use cargo_remote.Session.Requirements.{exec_remote}
use cargo_remote.Session.CopyBack.{profile_of, copy_back_binaries}
use cargo_remote.Session.Syncing.{do_sync}
use cargo_remote.Session.Commands.{exit_code, line_or, run_line, sync_if_asked}
use cargo_remote.Session.Installing.{agent_path_q}
use cargo_remote.Session.Emits.{Any, CellHolds, Emitted, Emits, pure-Emits, bind-Emits, if-Emits}
use cargo_remote.Session.Asked.{IsCheck, IsSync, IsBack, lift_self-Emits}
use cargo_remote.Session.Transfers.{weaker-Emits, do_sync-Syncs}
use cargo_remote.Session.Fetches.{copy_back_from-Backs}
use cargo_remote.Session.Succeeds.{Succeeded, Succeeds, pure-Succeeds, weaker-Succeeds}
use cargo_remote.Session.Transferred.{Transferred, do_sync-Transferred}
use cargo_remote.Session.Returned.{ProductsBack}

cancel : {A : Type 0} (xs ys zs : List A) → xs ++ ys ≡ xs ++ zs → ys ≡ zs
cancel [] ys zs h = h
cancel (x ∷ xs) ys zs h = cancel xs ys zs (ap tail h)
  where
    tail : {A : Type 0} → List A → List A
    tail [] = []
    tail (x ∷ xs) = xs

-- What a success has done, said of the events that are known to be added.
pub of_added :
    {A : Type 0} (path : Text) (P : Event → Type 0) (Q : A → Type 0) (D : A → List Event → Type 0)
    (s t : Session) (a : A) (e : Emitted path P Q s (ok a, t))
    → Succeeded path D s (ok a, t)
    → D a e.added
of_added path P Q D s t a e (es, (at, (d, _))) =
    subst (D a) (cancel s.events es e.added (sym at ∙ e.appended)) d

module _ (W : World) (M : Machine) (ctx : Context) where
  -- A transfer that was asked for, and a product that is fetched for these arguments.
  abbrev pub IsAskedSync : Event → Type 0
  IsAskedSync e = (ctx.sync ≡ true) × IsSync W M ctx e

  abbrev pub IsBackOf : List Text → Event → Type 0
  IsBackOf args e = (profile : Text) × ((profile_of args ≡ ok profile) × IsBack W M ctx profile e)

  -- The transfers, when all of them went through: what was asked for is done.
  abbrev pub IsSynced : List Event → Type 0
  IsSynced ss = All IsAskedSync ss × (ctx.sync ≡ true → Transferred W M ctx ctx.transfer ss)

  -- The whole of a command: checks, then transfers, then the remote command once, and, when that
  -- succeeded and `fetches` says so, what fetches the products. The result is the exit code.
  pub data CommandTrace (built : Result EnvError Text) (fetches : Bool) (args : List Text)
      : List Event → Result SessionError ℕ → Type 0 where
    stopped :
        (cs ss : List Event) (e : SessionError)
        → All (IsCheck W M ctx) cs
        → All IsAskedSync ss
        → CommandTrace built fetches args (cs ++ ss) (err e)
    broken :
        (cs ss : List Event) (line : Text) (e : SessionError)
        → All (IsCheck W M ctx) cs
        → IsSynced ss
        → built ≡ ok line
        → CommandTrace built fetches args
            (cs ++ (ss ++ executed line ctx.interactive (err e) ∷ []))
            (err e)
    ended :
        (cs ss : List Event) (line : Text) (code : ℕ)
        → All (IsCheck W M ctx) cs
        → IsSynced ss
        → built ≡ ok line
        → (fetches && (code == 0)) ≡ false
        → CommandTrace built fetches args
            (cs ++ (ss ++ executed line ctx.interactive (ok code) ∷ []))
            (ok (exit_code code))
    unfetched :
        (cs ss bs : List Event) (line : Text) (e : SessionError)
        → All (IsCheck W M ctx) cs
        → IsSynced ss
        → built ≡ ok line
        → fetches ≡ true
        → All (IsBackOf args) bs
        → CommandTrace built fetches args
            (cs ++ (ss ++ executed line ctx.interactive (ok 0) ∷ bs))
            (err e)
    fetched_back :
        (cs ss bs : List Event) (line : Text)
        → All (IsCheck W M ctx) cs
        → IsSynced ss
        → built ≡ ok line
        → fetches ≡ true
        → All (IsBackOf args) bs
        → ProductsBack W M ctx args bs
        → CommandTrace built fetches args
            (cs ++ (ss ++ executed line ctx.interactive (ok 0) ∷ bs))
            (ok 0)

  -- The events that are added, and the result, are such.
  pub record Traced (T : List Event → Result SessionError ℕ → Type 0) (s : Session)
      (r : Result SessionError ℕ × Session) : Type 0 where
    pub added : List Event
    pub appended : r.1.events ≡ s.events ++ added
    pub traced : T added r.0

  abbrev pub Traces : (List Event → Result SessionError ℕ → Type 0) → Run ℕ → Type 0
  Traces T m = (s : Session) → CellHolds (agent_path_q ctx) s.agent → Traced T s (m s)

  pub bind-Traces :
      {A : Type 0} (T : List Event → Result SessionError ℕ → Type 0) (P : Event → Type 0)
      (Q : A → Type 0) (D : A → List Event → Type 0) (m : Run A) (k : A → Run ℕ)
      → Emits (agent_path_q ctx) P Q m
      → Succeeds (agent_path_q ctx) D m
      → ((pre : List Event) → All P pre → (e : SessionError) → T pre (err e))
      → ((pre : List Event)
          → All P pre
          → (a : A) → D a pre
          → Traces (λ es r. T (pre ++ es) r) (k a))
      → Traces T (m >>= k)
  unfolding go_on
  bind-Traces {A} T P Q D m k em sm fail ek s c = go (m s).0 (m s).1 (em s c) (sm s c)
    where
      go :
          (r : Result SessionError A) (t : Session)
          → Emitted (agent_path_q ctx) P Q s (r, t)
          → Succeeded (agent_path_q ctx) D s (r, t)
          → Traced T s (go_on r t k)
      go (err x) t e _ = record {
        added = e.added;
        appended = e.appended;
        traced = fail e.added e.all_added x;
      }
      go (ok a) t e done =
          let next = ek e.added e.all_added a (of_added _ P Q D s t a e done) t e.cell_kept in
          record {
            added = e.added ++ next.added;
            appended =
                next.appended
                ∙ ap (λ h. h ++ next.added) e.appended
                ∙ append_assoc s.events e.added next.added;
            traced = next.traced;
          }

  pub sync_if_asked-Emits : Emits (agent_path_q ctx) IsAskedSync Any (sync_if_asked W M ctx)
  unfolding sync_if_asked
  sync_if_asked-Emits = go ctx.sync refl
    where
      go :
          (b : Bool)
          → ctx.sync ≡ b
          → Emits (agent_path_q ctx) IsAskedSync Any (if b then do_sync W M ctx else pure tt)
      go true h = weaker-Emits _ _ _ _ _ (λ e p. (h, p)) (do_sync-Syncs W M ctx)
      go false h = pure-Emits _ _ _ tt tt

  -- When a transfer was asked for, and did not fail, it is done.
  pub sync_if_asked-Transferred :
      ctx.dry_run ≡ false
      → Succeeds
          (agent_path_q ctx)
          (λ _ es. ctx.sync ≡ true → Transferred W M ctx ctx.transfer es)
          (sync_if_asked W M ctx)
  unfolding sync_if_asked
  sync_if_asked-Transferred live = go ctx.sync
    where
      go :
          (b : Bool)
          → Succeeds
              (agent_path_q ctx)
              (λ _ es. b ≡ true → Transferred W M ctx ctx.transfer es)
              (if b then do_sync W M ctx else pure tt)
      go true =
          weaker-Succeeds _ (λ _ es. Transferred W M ctx ctx.transfer es)
            (λ _ es. true ≡ true → Transferred W M ctx ctx.transfer es) _ (λ _ _ d _. d)
            (do_sync-Transferred W M ctx live)
      go false =
          pure-Succeeds _ (λ _ es. false ≡ true → Transferred W M ctx ctx.transfer es) tt λ h. cc

  pub copy_back_binaries-Emits :
      (args : List Text)
      → Emits (agent_path_q ctx) (IsBackOf args) Any (copy_back_binaries W M ctx args)
  unfolding copy_back_binaries
  copy_back_binaries-Emits args =
      bind-Emits _ _ (λ p. profile_of args ≡ ok p) _ _ _ (lift_self-Emits W M ctx _ _)
        λ p named.
          if-Emits _ _ _ _ _ _ (pure-Emits _ _ _ tt tt)
            (weaker-Emits _ _ _ _ _ (λ e b. (p, (named, b))) (copy_back_from-Backs W M ctx p))

  -- Without a dry run, `exec_remote` either fails before anything happened, or executes the line.
  pub run_line_cases :
      (built : Result EnvError Text) (s : Session)
      → ctx.dry_run ≡ false
      → ((e : SessionError) × (run_line W M ctx built s ≡ (err e, s)))
        ⊎ ((line : Text) × ((built ≡ ok line)
              × (run_line W M ctx built s ≡ (
                W.exec_term s.events line ctx.interactive,
                record_event
                    (executed line ctx.interactive (W.exec_term s.events line ctx.interactive))
                    s,
              ))))
  unfolding run_line line_or exec_remote require_ssh exec_term go_on
  run_line_cases (err e) s h = inl (_, refl)
  run_line_cases (ok line) s h = go ctx.dry_run M.connected h
    where
      go :
          (d c : Bool)
          → d ≡ false
          → ((e : SessionError) × ((if d
                    then pure 0
                    else (lift (ensure c no_connection) >> exec_term W line ctx.interactive))
                  s
                ≡ (err e, s)))
            ⊎ ((l : Text) × ((◌≡◌ {A = Result EnvError Text} (ok line) (ok l))
                  × ((if d
                          then pure 0
                          else (lift (ensure c no_connection) >> exec_term W line ctx.interactive))
                        s
                      ≡ (
                        W.exec_term s.events l ctx.interactive,
                        record_event
                            (executed l ctx.interactive (W.exec_term s.events l ctx.interactive))
                            s,
                      ))))
      go true c q = cc
      go false true q = inr (line, (refl, refl))
      go false false q = inl (_, refl)
