-- ===== src/Session/Transfers.antt =====
-- src/runner.rs and src/transfer.rs: the events of `ensure_agent` and of the transfer strategies.
use cargo_remote.Prelude.{
  ◌≡◌, refl, sym, append-nil, List, [], ◌∷◌, Text, Bool, true, false, Option, none, some, ok,
  text_eq, All, subst, if◌then◌else◌, ◌==◌, is_some,
}
use cargo_remote.Prelude.Words.{trim}
use cargo_remote.Transfer.{
  Compressor, no_compressor, gzip, Transfer, auto, delta, tar, tar_incremental,
}
use cargo_remote.Runner.{Context, excludes, remote_dir}
use cargo_remote.Session.{
  Event, Feed, binary, streamed, finished, synced, made_dir, made_private, World, Machine, Run,
  exec_send, finish_feed, agent_sync, create_dir_all, set_private,
}
use cargo_remote.Session.Installing.{
  agent_path_q, install_cmd, same_platform, upload_agent, install_agent, bootstrap_agent,
  keep_agent, agent_in, ensure_agent,
}
use cargo_remote.Session.Syncing.{
  snapshot_dir, snapshot_path, tar_line, tar_feed, tar_sync, fallback_sync, sync_with, delta_sync,
  auto_sync, prepare_cache, incremental_sync, sync_by, do_sync,
}
use cargo_remote.Session.Emits.{
  Any, Any-Gives, CellHolds, Emitted, Emits, pure-Emits, lift-Emits, bind-Emits, if-Emits,
  event-Emits,
}
use cargo_remote.Session.Asked.{
  IsInstall, asked_platform, probed, uploaded, verified, IsSync, installed, tested_dir,
  sent_archive, ended_archive, sent_delta, made_cache, hid_cache, IsAgent, captured-Emits,
  ssh-Emits, lift_self-Emits,
}

-- What does more may be said of a piece of a run, event by event.
pub weaker-Emits :
    {A : Type 0} (path : Text) (P R : Event → Type 0) (Q : A → Type 0) (m : Run A)
    → ((e : Event) → P e → R e)
    → Emits path P Q m
    → Emits path R Q m
weaker-Emits path P R Q m f em s c = of (em s c)
  where
    all : (es : List Event) → All P es → All R es
    all [] a = tt
    all (e ∷ es) (p, ps) = (f e p, all es ps)

    of : Emitted path P Q s (m s) → Emitted path R Q s (m s)
    of e = record {
      added = e.added;
      appended = e.appended;
      all_added = all e.added e.all_added;
      gives = e.gives;
      cell_kept = e.cell_kept;
    }

module _ (W : World) (M : Machine) (ctx : Context) where
  abbrev pub Installs : {A : Type 0} → (A → Type 0) → Run A → Type 0
  Installs Q m = Emits (agent_path_q ctx) (IsInstall W M ctx) Q m

  abbrev pub Syncs : Run (Unit {0}) → Type 0
  Syncs m = Emits (agent_path_q ctx) (IsSync W M ctx) Any m

  upload_agent-Installs : (want : Text) → Installs (IsAgent W M ctx) (upload_agent W M ctx want)
  unfolding upload_agent exec_send
  upload_agent-Installs want =
      bind-Emits _ _ (λ b. M.own_binary ≡ ok b) _ _ _ (lift_self-Emits W M ctx _ _)
        λ b own.
          bind-Emits _ _ Any _ _ _
            (event-Emits _ _
              (λ h.
                streamed (install_cmd M ctx) (binary b)
                  (W.exec_send h (install_cmd M ctx) (binary b)))
              (λ h. W.exec_send h (install_cmd M ctx) (binary b)) (λ h. uploaded b _ own))
            λ code _. bind-Emits _ _ Any _ _ _ (lift-Emits _ _ _ _ (Any-Gives _)) λ _ _.
              bind-Emits _ _ Any _ _ _ (captured-Emits W M ctx _ _ verified)
                λ (_, out) _. pure-Emits _ _ _ _ (answered (text_eq (trim (M.lossy out)) want))
    where
      answered : (b : Bool) → IsAgent W M ctx (if b then some (agent_path_q ctx) else none)
      answered true = refl
      answered false = tt

  bootstrap_agent-Installs : Installs (IsAgent W M ctx) (bootstrap_agent W M ctx)
  unfolding bootstrap_agent install_agent
  bootstrap_agent-Installs = bind-Emits _ _ Any _ _ _ (ssh-Emits W M ctx _) λ _ _.
      bind-Emits _ _ Any _ _ _ (captured-Emits W M ctx _ _ asked_platform) λ (_, out) _.
        if-Emits _ _ _ (same_platform W M ctx (M.lossy out)) _ _
          (bind-Emits _ _ Any _ _ _ (lift-Emits _ _ _ _ (Any-Gives _)) λ want _.
            bind-Emits _ _ Any _ _ _ (captured-Emits W M ctx _ _ probed) λ (_, seen) _.
              if-Emits _ _ _ (text_eq (trim (M.lossy seen)) want) _ _ (pure-Emits _ _ _ _ refl)
                (upload_agent-Installs want))
          (pure-Emits _ _ _ _ tt)

  keep_agent-Installs :
      (p : Option Text) → IsAgent W M ctx p → Installs (IsAgent W M ctx) (keep_agent W M ctx p)
  unfolding keep_agent
  keep_agent-Installs p q s c = record {
    added = [];
    appended = sym (append-nil s.events);
    all_added = tt;
    gives = q;
    cell_kept = cell p q;
  }
    where
      cell : (p : Option Text) → IsAgent W M ctx p → CellHolds (agent_path_q ctx) (some p)
      cell none q = tt
      cell (some p) q = q

  pub ensure_agent-Installs : Installs (IsAgent W M ctx) (ensure_agent W M ctx)
  unfolding ensure_agent agent_in
  ensure_agent-Installs s c = of s.agent c
    where
      of :
          (cell : Option (Option Text))
          → CellHolds (agent_path_q ctx) cell
          → Emitted
              (agent_path_q ctx)
              (IsInstall W M ctx)
              (IsAgent W M ctx)
              s
              (agent_in W M ctx cell s)
      of none h =
          bind-Emits _ _ (IsAgent W M ctx) (IsAgent W M ctx) _ _ bootstrap_agent-Installs
            keep_agent-Installs s c
      of (some none) h = pure-Emits _ _ (IsAgent W M ctx) none tt s c
      of (some (some p)) h = pure-Emits _ _ (IsAgent W M ctx) (some p) h s c

  tar_sync-Syncs : (c : Compressor) (snapshot : Option Text) → Syncs (tar_sync W M ctx c snapshot)
  unfolding tar_sync exec_send finish_feed
  tar_sync-Syncs c snapshot = if-Emits _ _ _ _ _ _ (pure-Emits _ _ _ tt tt) (
      bind-Emits _ _ Any _ _ _ (ssh-Emits W M ctx _) λ _ _.
        bind-Emits _ _ Any _ _ _
          (event-Emits _ _ (λ h. streamed (line c) (feed c) (W.exec_send h (line c) (feed c)))
            (λ h. W.exec_send h (line c) (feed c)) (λ h. sent_archive c snapshot _))
          λ code _.
            bind-Emits _ _ Any _ _ _
              (event-Emits _ _ (λ h. finished (feed c) (W.finish h (feed c)))
                (λ h. W.finish h (feed c)) (λ h. ended_archive c snapshot _))
              λ _ _. lift-Emits _ _ _ _ (Any-Gives _))
    where
      line : Compressor → Text
      line c = tar_line W M ctx c (is_some snapshot)

      feed : Compressor → Feed
      feed c = tar_feed W M ctx c snapshot

  pub create_dir_all-Syncs : (home : Text) → Syncs (create_dir_all W (snapshot_dir home))
  unfolding create_dir_all
  create_dir_all-Syncs home =
      event-Emits _ _ (λ h. made_dir (snapshot_dir home) (W.make_dir h (snapshot_dir home)))
        (λ h. W.make_dir h (snapshot_dir home)) (λ h. made_cache home _)

  set_private-Syncs : (dir : Text) → Syncs (set_private W dir)
  unfolding set_private
  set_private-Syncs dir =
      event-Emits _ _ (λ h. made_private dir (W.make_private h dir)) (λ h. W.make_private h dir)
        (λ h. hid_cache dir _)

  fallback_sync-Syncs : Syncs (fallback_sync W M ctx)
  unfolding fallback_sync
  fallback_sync-Syncs = bind-Emits _ _ Any _ _ _ (lift-Emits _ _ _ _ (Any-Gives _)) λ home _.
      bind-Emits _ _ Any _ _ _ (create_dir_all-Syncs home)
        λ _ _. tar_sync-Syncs no_compressor (some (snapshot_path ctx home))

  sync_with-Syncs : (agent : Option Text) → IsAgent W M ctx agent → Syncs (sync_with W M ctx agent)
  unfolding sync_with agent_sync
  sync_with-Syncs none h = fallback_sync-Syncs
  sync_with-Syncs (some p) h = bind-Emits _ _ Any _ _ _ (ssh-Emits W M ctx _) λ _ _.
      event-Emits _ _
        (λ k.
          synced p ctx.project_root (remote_dir ctx) (excludes ctx) true
            (W.sync k p ctx.project_root (remote_dir ctx) (excludes ctx) true))
        (λ k. W.sync k p ctx.project_root (remote_dir ctx) (excludes ctx) true)
        (λ k.
          subst
            (λ q. IsSync W M ctx (
              synced q ctx.project_root (remote_dir ctx) (excludes ctx) true
                (W.sync k p ctx.project_root (remote_dir ctx) (excludes ctx) true)))
            (sym h) (sent_delta _))

  delta_sync-Syncs : Syncs (delta_sync W M ctx)
  unfolding delta_sync
  delta_sync-Syncs = if-Emits _ _ _ _ _ _ (pure-Emits _ _ _ tt tt) (
      bind-Emits _ _ (IsAgent W M ctx) _ _ _
        (weaker-Emits _ _ _ _ _ installed ensure_agent-Installs) sync_with-Syncs)

  auto_sync-Syncs : Syncs (auto_sync W M ctx)
  unfolding auto_sync
  auto_sync-Syncs = if-Emits _ _ _ _ _ _ (pure-Emits _ _ _ tt tt) (
      bind-Emits _ _ Any _ _ _ (ssh-Emits W M ctx _) λ _ _.
        bind-Emits _ _ Any _ _ _ (captured-Emits W M ctx _ _ tested_dir)
          λ (code, _) _. if-Emits _ _ _ (code == 0) _ _ delta_sync-Syncs (tar_sync-Syncs gzip none))

  pub prepare_cache-Syncs : (home : Text) → Syncs (prepare_cache W M ctx home)
  unfolding prepare_cache
  prepare_cache-Syncs home = if-Emits _ _ _ _ _ _ (pure-Emits _ _ _ tt tt) (
      bind-Emits _ _ Any _ _ _ (create_dir_all-Syncs home) λ _ _.
        bind-Emits _ _ Any _ _ _ (set_private-Syncs _) λ _ _. best_effort (set_private-Syncs _))
    where
      -- The result of what is only tried is not looked at.
      best_effort : {m : Run (Unit {0})} → Syncs m → Syncs (λ s. (ok tt, (m s).1))
      best_effort em s c =
          let e = em s c in
          record {
            added = e.added;
            appended = e.appended;
            all_added = e.all_added;
            gives = tt;
            cell_kept = e.cell_kept;
          }

  incremental_sync-Syncs : Syncs (incremental_sync W M ctx)
  unfolding incremental_sync
  incremental_sync-Syncs = bind-Emits _ _ Any _ _ _ (lift-Emits _ _ _ _ (Any-Gives _)) λ home _.
      bind-Emits _ _ Any _ _ _ (prepare_cache-Syncs home)
        λ _ _. tar_sync-Syncs no_compressor (some (snapshot_path ctx home))

  pub do_sync-Syncs : Syncs (do_sync W M ctx)
  unfolding do_sync sync_by
  do_sync-Syncs = by_strategy ctx.transfer
    where
      by_strategy : (t : Transfer) → Syncs (sync_by W M ctx t)
      by_strategy auto = auto_sync-Syncs
      by_strategy delta = delta_sync-Syncs
      by_strategy (tar c) = tar_sync-Syncs c none
      by_strategy tar_incremental = incremental_sync-Syncs
