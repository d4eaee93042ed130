-- ===== src/Session/Transferred.antt =====
-- src/transfer.rs: what a transfer that succeeded has done, by its strategy.
use cargo_remote.Prelude.{
  ◌≡◌, refl, sym, ap, ◌∙◌, subst, ℕ, List, [], ◌∷◌, ◌++◌, append_assoc, Text, Bool, true, false,
  Option, none, some, Result, ok, err, ensure, ◌==◌, ==_iff, is_some,
}
use cargo_remote.Transfer.{
  Compressor, no_compressor, gzip, Transfer, auto, delta, tar, tar_incremental,
}
use cargo_remote.Runner.{Context, excludes, remote_dir}
use cargo_remote.Session.{
  SessionError, no_connection, Event, Feed, streamed, finished, synced, World, Machine, Session,
  Run, require_ssh, exec_send, finish_feed, agent_sync, ◌>>=◌, lift, tar_failed,
}
use cargo_remote.Session.Installing.{agent_path_q}
use cargo_remote.Session.Syncing.{
  snapshot_path, home_of, tar_line, tar_feed, tar_sync, fallback_sync, sync_with, delta_sync,
  auto_sync, incremental_sync, sync_by, do_sync,
}
use cargo_remote.Session.Asked.{captured-Emits, tested_dir, IsSync}
use cargo_remote.Session.Transfers.{
  ensure_agent-Installs, create_dir_all-Syncs, prepare_cache-Syncs,
}
use cargo_remote.Session.Succeeds.{
  Succeeded, Succeeds, lift-Succeeds, Emits-Succeeds, bind-Succeeds, if-Succeeds, live-Succeeds,
  event-Succeeds,
}

-- The strategies that use the agent, and those that send an archive: with which compressor, and
-- whether it is incremental.
pub data UsesAgent : Transfer → Type 0 where
  warm_agent : UsesAgent auto
  delta_agent : UsesAgent delta

pub data UsesArchive : Transfer → Compressor → Bool → Type 0 where
  cold_archive : UsesArchive auto gzip false
  warm_fallback : UsesArchive auto no_compressor true
  delta_fallback : UsesArchive delta no_compressor true
  whole_archive : (c : Compressor) → UsesArchive (tar c) c false
  incremental_archive : UsesArchive tar_incremental no_compressor true

module _ (W : World) (M : Machine) (ctx : Context) where
  -- The last that was done is a sync of the agent that succeeded, or an archive that was sent whole
  -- and unpacked with exit code 0.
  pub data Transferred (t : Transfer) : List Event → Type 0 where
    by_agent :
        (es : List Event) (p : Text)
        → UsesAgent t
        → Transferred t
            (es ++ synced p ctx.project_root (remote_dir ctx) (excludes ctx) true (ok tt) ∷ [])
    by_archive :
        (es : List Event) (c : Compressor) (snapshot : Option Text)
        → UsesArchive t c (is_some snapshot)
        → Transferred t (
            es
            ++ streamed (tar_line W M ctx c (is_some snapshot)) (tar_feed W M ctx c snapshot) (ok 0)
              ∷ finished (tar_feed W M ctx c snapshot) (ok tt)
              ∷ [])

  prepend : (t : Transfer) (pre es : List Event) → Transferred t es → Transferred t (pre ++ es)
  prepend t pre _ (by_agent es p u) =
      subst (Transferred t) (append_assoc pre es _) (by_agent (pre ++ es) p u)
  prepend t pre _ (by_archive es c snapshot u) =
      subst (Transferred t) (append_assoc pre es _) (by_archive (pre ++ es) c snapshot u)

  abbrev Done : Transfer → Run (Unit {0}) → Type 0
  Done t m = Succeeds (agent_path_q ctx) (λ _ es. Transferred t es) m

  -- Anything that adds events, before.
  after-Done :
      {A : Type 0} (t : Transfer) (D : A → List Event → Type 0) (m : Run A) (k : A → Run (Unit {0}))
      → Succeeds (agent_path_q ctx) D m
      → ((a : A) → Done t (k a))
      → Done t (m >>= k)
  after-Done t D m k sm sk =
      bind-Succeeds _ D _ m k sm λ a es d s c. prepended es (k a s).0 (k a s).1 s (sk a s c)
    where
      prepended :
          (es : List Event) (r : Result SessionError (Unit {0})) (u s : Session)
          → Succeeded (agent_path_q ctx) (λ _ more. Transferred t more) s (r, u)
          → Succeeded (agent_path_q ctx) (λ _ more. Transferred t (es ++ more)) s (r, u)
      prepended es (ok a) u s (more, (at, (d, h))) = (more, (at, (prepend t es more d, h)))
      prepended es (err e) u s h = tt

  silent-Done :
      {A : Type 0} (t : Transfer) (r : Result SessionError A) (k : A → Run (Unit {0}))
      → ((a : A) → Done t (k a))
      → Done t (lift r >>= k)
  silent-Done t r k = after-Done t (λ _ _. Unit {0}) (lift r) k (lift-Succeeds _ _ r λ a e. tt)

  tar_sync-Done :
      (t : Transfer) (c : Compressor) (snapshot : Option Text)
      → ctx.dry_run ≡ false
      → UsesArchive t c (is_some snapshot)
      → Done t (tar_sync W M ctx c snapshot)
  unfolding tar_sync require_ssh exec_send finish_feed
  tar_sync-Done t c snapshot live u = live-Succeeds _ _ _ _ _ live (
      silent-Done t (ensure M.connected no_connection) _ λ _.
        bind-Succeeds _
          (λ code es. es ≡ streamed (tar_line W M ctx c (is_some snapshot)) feed (ok code) ∷ []) _ _
          _
          (event-Succeeds _ _ (streamed (tar_line W M ctx c (is_some snapshot)) feed)
            (λ h. W.exec_send h (tar_line W M ctx c (is_some snapshot)) feed) λ a. refl)
          λ code es sent.
            bind-Succeeds _ (λ _ more. more ≡ finished feed (ok tt) ∷ []) _ _ _
              (event-Succeeds _ _ (finished feed) (λ h. W.finish h feed) λ a. refl)
              λ _ more ended. lift-Succeeds _ _ _ λ a worked. whole code es more sent ended worked)
    where
      feed : Feed
      feed = tar_feed W M ctx c snapshot

      succeeded :
          (code : ℕ)
          → ◌≡◌ {A = Result SessionError (Unit {0})} (ensure (code == 0) (tar_failed code)) (ok tt)
          → code ≡ 0
      succeeded code h = go (code == 0) refl h
        where
          go :
              (b : Bool)
              → (code == 0) ≡ b
              → ◌≡◌ {A = Result SessionError (Unit {0})} (ensure b (tar_failed code)) (ok tt)
              → code ≡ 0
          go true z h = (==_iff code 0).0 z
          go false z h = cc

      whole :
          (code : ℕ) (es more : List Event)
          → es ≡ streamed (tar_line W M ctx c (is_some snapshot)) feed (ok code) ∷ []
          → more ≡ finished feed (ok tt) ∷ []
          → ◌≡◌ {A = Result SessionError (Unit {0})} (ensure (code == 0) (tar_failed code)) (ok tt)
          → Transferred t (es ++ (more ++ []))
      whole code es more sent ended worked =
          subst (Transferred t)
            (ap
                (λ n.
                  streamed (tar_line W M ctx c (is_some snapshot)) feed (ok n)
                  ∷ finished feed (ok tt)
                  ∷ [])
                (sym (succeeded code worked))
              ∙ ap (λ l. l ++ finished feed (ok tt) ∷ []) (sym sent)
              ∙ ap (λ l. es ++ (l ++ [])) (sym ended))
            (by_archive [] c snapshot u)

  fallback_sync-Done :
      (t : Transfer)
      → ctx.dry_run ≡ false
      → UsesArchive t no_compressor true
      → Done t (fallback_sync W M ctx)
  unfolding fallback_sync
  fallback_sync-Done t live u = silent-Done t (home_of M.home) _ λ home.
      after-Done t _ _ _ (Emits-Succeeds _ _ _ _ (create_dir_all-Syncs W M ctx home))
        λ _. tar_sync-Done t no_compressor (some (snapshot_path ctx home)) live u

  delta_sync-Done :
      (t : Transfer)
      → ctx.dry_run ≡ false
      → UsesAgent t
      → UsesArchive t no_compressor true
      → Done t (delta_sync W M ctx)
  unfolding delta_sync sync_with require_ssh agent_sync
  delta_sync-Done t live a u =
      live-Succeeds _ _ _ _ _ live
        (after-Done t _ _ _ (Emits-Succeeds _ _ _ _ (ensure_agent-Installs W M ctx)) by_path)
    where
      by_path : (p : Option Text) → Done t (sync_with W M ctx p)
      by_path none = fallback_sync-Done t live u
      by_path (some p) = silent-Done t (ensure M.connected no_connection) _ λ _.
          event-Succeeds _ _ (synced p ctx.project_root (remote_dir ctx) (excludes ctx) true)
            (λ h. W.sync h p ctx.project_root (remote_dir ctx) (excludes ctx) true)
            λ _. by_agent [] p a

  auto_sync-Done : ctx.dry_run ≡ false → Done auto (auto_sync W M ctx)
  unfolding auto_sync require_ssh
  auto_sync-Done live = live-Succeeds _ _ _ _ _ live (
      silent-Done auto (ensure M.connected no_connection) _ λ _.
        after-Done auto _ _ _
          (Emits-Succeeds _ _ _ _ (captured-Emits W M ctx (IsSync W M ctx) _ tested_dir))
          λ (code, _).
            if-Succeeds _ _ (code == 0) _ _ (delta_sync-Done auto live warm_agent warm_fallback)
              (tar_sync-Done auto gzip none live cold_archive))

  -- A transfer that succeeds, and is not dry, has transferred by its strategy.
  pub do_sync-Transferred : ctx.dry_run ≡ false → Done ctx.transfer (do_sync W M ctx)
  unfolding do_sync sync_by incremental_sync
  do_sync-Transferred live = by_strategy ctx.transfer
    where
      by_strategy : (t : Transfer) → Done t (sync_by W M ctx t)
      by_strategy auto = auto_sync-Done live
      by_strategy delta = delta_sync-Done delta live delta_agent delta_fallback
      by_strategy (tar c) = tar_sync-Done (tar c) c none live (whole_archive c)
      by_strategy tar_incremental = silent-Done tar_incremental (home_of M.home) _ λ home.
          after-Done tar_incremental _ _ _
            (Emits-Succeeds _ _ _ _ (prepare_cache-Syncs W M ctx home))
            λ _.
              tar_sync-Done tar_incremental no_compressor (some (snapshot_path ctx home)) live
                incremental_archive
