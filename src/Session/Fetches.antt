-- ===== src/Session/Fetches.antt =====
-- src/runner.rs: the events of `copy_back_binaries`.
use cargo_remote.Prelude.{
  ◌≡◌, refl, sym, ◌∙◌, append-nil, List, [], ◌∷◌, ◌++◌, Text, Bytes, Bool, true, false, Option,
  none, some, Result, ok, text_eq, subst, if◌then◌else◌, is_empty, unwrap_or,
}
use cargo_remote.Runner.{Context, remote_dir}
use cargo_remote.Session.{
  SessionError, Event, fetched, downloaded, made_dir, World, Machine, Session, Run, exec_download,
  agent_fetch, create_dir_all,
}
use cargo_remote.Session.Installing.{agent_path_q}
use cargo_remote.Session.Lockfile.{
  write_review, write_staging, rename_staging, apply_remote_lockfile,
}
use cargo_remote.Session.CopyBack.{
  name_of, found_files, local_profile_dir, download_cmd, download_one, download_all, fetch_with,
  fetch_files, copy_back_lockfile, copy_back_from,
}
use cargo_remote.Session.Emits.{
  Any, Any-Gives, CellHolds, Emitted, Emits, pure-Emits, lift-Emits, bind-Emits, event-Emits,
}
use cargo_remote.Session.Asked.{
  IsBack, installed, listed, made_target, fetched_files, fetched_file, read_lockfile, IsAgent,
  captured-Emits, ssh-Emits, lift_self-Emits,
}
use cargo_remote.Session.Transfers.{weaker-Emits, ensure_agent-Installs}

module _ (W : World) (ctx : Context) (P : Event → Type 0) where
  -- The lock files change only; nothing is asked.
  abbrev Quiet : Session → Result SessionError (Unit {0}) × Session → Type 0
  Quiet s r = Emitted (agent_path_q ctx) P Any s r

  quiet_lem :
      (s t : Session) (r : Result SessionError (Unit {0}))
      → t.events ≡ s.events
      → t.agent ≡ s.agent
      → CellHolds (agent_path_q ctx) s.agent
      → Quiet s (r, t)
  quiet_lem s t r es ca c = record {
    added = [];
    appended = es ∙ sym (append-nil s.events);
    all_added = tt;
    gives = Any-Gives r;
    cell_kept = subst (CellHolds (agent_path_q ctx)) (sym ca) c;
  }

  either :
      (s : Session) (b : Bool) (x y : Result SessionError (Unit {0}) × Session)
      → Quiet s x
      → Quiet s y
      → Quiet s (if b then x else y)
  either s true x y qx qy = qx
  either s false x y qx qy = qy

  pub apply_remote_lockfile-Emits :
      (update : Bool) (remote : Bytes)
      → Emits (agent_path_q ctx) P Any (apply_remote_lockfile W update remote)
  unfolding apply_remote_lockfile write_review write_staging rename_staging
  apply_remote_lockfile-Emits update remote s c = either s (is_empty remote) _ _ unchanged (
      either s (text_eq (unwrap_or s.lockfiles.local []) remote) _ _ unchanged (
        either s update _ _
          (bind-Emits _ _ Any _ (write_staging W remote) (λ _. rename_staging W)
            (λ t k. quiet_lem t _ _ refl refl k)
            (λ _ _ t k.
              either t (W.rename _ _ _) _ _ (quiet_lem t _ _ refl refl k)
                (quiet_lem t _ _ refl refl k))
            s c)
          (quiet_lem s _ _ refl refl c)))
    where
      unchanged : Quiet s (ok tt, s)
      unchanged = quiet_lem s s (ok tt) refl refl c

module _ (W : World) (M : Machine) (ctx : Context) (profile : Text) where
  abbrev Backs : Run (Unit {0}) → Type 0
  Backs m = Emits (agent_path_q ctx) (IsBack W M ctx profile) Any m

  abbrev dest : Text
  dest = local_profile_dir ctx profile

  download_one-Backs : (file : Text) → Backs (download_one W M ctx dest file)
  unfolding download_one exec_download
  download_one-Backs file =
      bind-Emits _ _ (λ name. name_of file ≡ ok name) _ _ _ (lift_self-Emits W M ctx _ _)
        λ name named.
          event-Emits _ _
            (λ h.
              downloaded (download_cmd ctx file) (dest ++ (b'/' ∷ name))
                (W.download h (download_cmd ctx file) (dest ++ (b'/' ∷ name))))
            (λ h. W.download h (download_cmd ctx file) (dest ++ (b'/' ∷ name)))
            (λ h. fetched_file file name _ named)

  download_all-Backs : (files : List Text) → Backs (download_all W M ctx dest files)
  unfolding download_all
  download_all-Backs [] = pure-Emits _ _ _ tt tt
  download_all-Backs (file ∷ files) =
      bind-Emits _ _ Any _ _ _ (download_one-Backs file) λ _ _. download_all-Backs files

  fetch_with-Backs :
      (agent : Option Text) (files : List Text)
      → IsAgent W M ctx agent
      → Backs (fetch_with W M ctx agent dest files)
  unfolding fetch_with agent_fetch
  fetch_with-Backs none files h = download_all-Backs files
  fetch_with-Backs (some p) files h =
      bind-Emits _ _ Any _ _ _
        (event-Emits _ _
          (λ k. fetched p (remote_dir ctx) files dest (W.fetch k p (remote_dir ctx) files dest))
          (λ k. W.fetch k p (remote_dir ctx) files dest)
          (λ k.
            subst
              (λ q.
                IsBack W M ctx profile
                  (fetched q (remote_dir ctx) files dest (W.fetch k p (remote_dir ctx) files dest)))
              (sym h) (fetched_files files _)))
        λ _ _. pure-Emits _ _ _ tt tt

  fetch_files-Backs : (files : List Text) → Backs (fetch_files W M ctx dest files)
  unfolding fetch_files create_dir_all
  fetch_files-Backs [] = pure-Emits _ _ _ tt tt
  fetch_files-Backs (file ∷ files) =
      bind-Emits _ _ Any _ _ _
        (event-Emits _ _ (λ h. made_dir dest (W.make_dir h dest)) (λ h. W.make_dir h dest)
          (λ h. made_target _))
        λ _ _.
          bind-Emits _ _ (IsAgent W M ctx) _ _ _
            (weaker-Emits _ _ _ _ _ installed (ensure_agent-Installs W M ctx))
            λ agent. fetch_with-Backs agent (file ∷ files)

  pub copy_back_from-Backs : Backs (copy_back_from W M ctx profile)
  unfolding copy_back_from copy_back_lockfile
  copy_back_from-Backs = bind-Emits _ _ Any _ _ _ (ssh-Emits W M ctx _) λ _ _.
      bind-Emits _ _ Any _ _ _ (captured-Emits W M ctx _ _ listed) λ (code, out) _.
        bind-Emits _ _ Any _ _ _ (lift-Emits _ _ _ _ (Any-Gives _)) λ _ _.
          bind-Emits _ _ Any _ _ _ (fetch_files-Backs (found_files M.lossy out)) λ _ _.
            bind-Emits _ _ Any _ _ _ (ssh-Emits W M ctx _) λ _ _.
              bind-Emits _ _ Any _ _ _ (captured-Emits W M ctx _ _ read_lockfile) λ (_, bytes) _.
                apply_remote_lockfile-Emits W ctx (IsBack W M ctx profile) ctx.update_lockfile bytes
