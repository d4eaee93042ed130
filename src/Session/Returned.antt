-- ===== src/Session/Returned.antt =====
-- src/runner.rs: what `copy_back_binaries` has done when it succeeded.
use cargo_remote.Prelude.{
  ◌≡◌, refl, sym, ap, ◌∙◌, subst, ℕ, List, [], ◌∷◌, ◌++◌, append-nil, append_assoc, Text, Bytes,
  Bool, true, false, Option, none, some, Result, ok, ensure, All, ◌==◌, ==_iff,
}
use cargo_remote.Runner.{Context, remote_dir}
use cargo_remote.Session.{
  SessionError, no_connection, find_failed, Event, captured, fetched, downloaded, made_dir, World,
  Machine, Run, require_ssh, exec_capture, exec_download, agent_fetch, create_dir_all, ◌>>=◌, lift,
}
use cargo_remote.Session.Installing.{agent_path_q}
use cargo_remote.Session.CopyBack.{
  profile_of, name_of, find_cmd, found_files, lockfile_cmd, local_profile_dir, download_cmd,
  download_one, download_all, fetch_with, fetch_files, copy_back_lockfile, copy_back_from,
  copy_back_binaries,
}
use cargo_remote.Session.Transfers.{ensure_agent-Installs}
use cargo_remote.Session.Fetches.{apply_remote_lockfile-Emits}
use cargo_remote.Session.Succeeds.{
  Succeeds, pure-Succeeds, lift-Succeeds, Emits-Succeeds, bind-Succeeds, weaker-Succeeds,
  live-Succeeds, event-Succeeds,
}

module _ (W : World) (M : Machine) (ctx : Context) where
  -- One download for each file, in order, under its checked name.
  pub data Downloads (dest : Text) : List Text → List Event → Type 0 where
    no_more : Downloads dest [] []
    one_more :
        (file name : Text) (files : List Text) (es : List Event)
        → name_of file ≡ ok name
        → Downloads dest files es
        → Downloads dest
            (file ∷ files)
            (downloaded (download_cmd ctx file) (dest ++ (b'/' ∷ name)) (ok tt) ∷ es)

  -- All the files, by one fetch of the agent or by downloads, behind what is done before.
  pub data FilesBack (dest : Text) : List Text → List Event → Type 0 where
    no_files : FilesBack dest [] []
    by_fetch :
        (files : List Text) (es : List Event) (p : Text) (names : List Text)
        → FilesBack dest files (es ++ fetched p (remote_dir ctx) files dest (ok names) ∷ [])
    by_downloads :
        (files : List Text) (es more : List Event)
        → Downloads dest files more
        → FilesBack dest files (es ++ more)

  -- The list of the products came, all of them were fetched, and then the lock file was read.
  pub data ProductsBack (args : List Text) : List Event → Type 0 where
    products_back :
        (profile : Text) (out : Bytes) (es : List Event) (lock : ℕ × Bytes)
        → profile_of args ≡ ok profile
        → FilesBack (local_profile_dir ctx profile) (found_files M.lossy out) es
        → ProductsBack args (
            captured (find_cmd ctx profile) (ok (0, out))
            ∷ (es ++ captured (lockfile_cmd ctx) (ok lock) ∷ []))

  abbrev Does : {A : Type 0} → (List Event → Type 0) → Run A → Type 0
  Does D m = Succeeds (agent_path_q ctx) (λ _ es. D es) m

  silent :
      {A B : Type 0} (D : B → List Event → Type 0) (r : Result SessionError A) (k : A → Run B)
      → ((a : A) → r ≡ ok a → Succeeds (agent_path_q ctx) D (k a))
      → Succeeds (agent_path_q ctx) D (lift r >>= k)
  silent D r k sk =
      bind-Succeeds _ (λ a es. (es ≡ []) × (r ≡ ok a)) D (lift r) k
        (lift-Succeeds _ _ r (λ a e. (refl, e)))
        λ a es (e, got).
          subst (λ l. Succeeds (agent_path_q ctx) (λ b more. D b (l ++ more)) (k a)) (sym e)
            (sk a got)

  download_all-Does :
      (dest : Text) (files : List Text)
      → Does (Downloads dest files) (download_all W M ctx dest files)
  unfolding download_all download_one exec_download
  download_all-Does dest [] = pure-Succeeds _ (λ _ es. Downloads dest [] es) tt no_more
  download_all-Does dest (file ∷ files) =
      bind-Succeeds _
        (λ _ es.
          (name : Text) × ((name_of file ≡ ok name)
            × (es ≡ downloaded (download_cmd ctx file) (dest ++ (b'/' ∷ name)) (ok tt) ∷ [])))
        _ _ _
        (silent _ (name_of file) _ λ name named.
          event-Succeeds _ _ (downloaded (download_cmd ctx file) (dest ++ (b'/' ∷ name)))
            (λ h. W.download h (download_cmd ctx file) (dest ++ (b'/' ∷ name)))
            λ _. (name, (named, refl)))
        λ _ es d. then_all es d (download_all-Does dest files)
    where
      then_all :
          (es : List Event)
          → (name : Text) × ((name_of file ≡ ok name)
              × (es ≡ downloaded (download_cmd ctx file) (dest ++ (b'/' ∷ name)) (ok tt) ∷ []))
          → Does (Downloads dest files) (download_all W M ctx dest files)
          → Does
              (λ more. Downloads dest (file ∷ files) (es ++ more))
              (download_all W M ctx dest files)
      then_all es (name, (named, eq)) rest =
          weaker-Succeeds _ _ _ _
            (λ _ more d.
              subst (λ l. Downloads dest (file ∷ files) (l ++ more)) (sym eq)
                (one_more file name files more named d))
            rest

  prepend :
      (dest : Text) (files : List Text) (pre es : List Event)
      → FilesBack dest files es
      → FilesBack dest files (pre ++ es)
  prepend dest _ pre _ no_files = by_downloads [] pre [] no_more
  prepend dest _ pre _ (by_fetch files es p names) =
      subst (FilesBack dest files) (append_assoc pre es _) (by_fetch files (pre ++ es) p names)
  prepend dest _ pre _ (by_downloads files es more d) =
      subst (FilesBack dest files) (append_assoc pre es more)
        (by_downloads files (pre ++ es) more d)

  fetch_with-Does :
      (agent : Option Text) (dest : Text) (files : List Text)
      → Does (FilesBack dest files) (fetch_with W M ctx agent dest files)
  unfolding fetch_with agent_fetch
  fetch_with-Does none dest files =
      weaker-Succeeds _ _ _ _ (λ _ es d. by_downloads files [] es d) (download_all-Does dest files)
  fetch_with-Does (some p) dest files =
      bind-Succeeds _ (λ names es. es ≡ fetched p (remote_dir ctx) files dest (ok names) ∷ []) _ _ _
        (event-Succeeds _ _ (fetched p (remote_dir ctx) files dest)
          (λ h. W.fetch h p (remote_dir ctx) files dest) λ _. refl)
        λ names es e.
          pure-Succeeds _ (λ _ more. FilesBack dest files (es ++ more)) tt
            (subst (FilesBack dest files) (sym (ap (λ l. l ++ []) e)) (by_fetch files [] p names))

  fetch_files-Does :
      (dest : Text) (files : List Text)
      → Does (FilesBack dest files) (fetch_files W M ctx dest files)
  unfolding fetch_files create_dir_all
  fetch_files-Does dest [] = pure-Succeeds _ (λ _ es. FilesBack dest [] es) tt no_files
  fetch_files-Does dest (file ∷ files) =
      bind-Succeeds _ (λ _ _. Unit {0}) _ _ _
        (event-Succeeds _ _ (made_dir dest) (λ h. W.make_dir h dest) λ _. tt)
        λ _ made _.
          bind-Succeeds _ _ _ _ _ (Emits-Succeeds _ _ _ _ (ensure_agent-Installs W M ctx))
            λ agent installs _.
              weaker-Succeeds _ _ _ _
                (λ _ es d.
                  prepend dest (file ∷ files) made (installs ++ es)
                    (prepend dest (file ∷ files) installs es d))
                (fetch_with-Does agent dest (file ∷ files))

  no_events : (es : List Event) → All (λ _. ⊥) es → es ≡ []
  no_events [] a = refl
  no_events (e ∷ es) (x, _) = absurd x

  copy_back_lockfile-Does :
      Does
        (λ es. (lock : ℕ × Bytes) × (es ≡ captured (lockfile_cmd ctx) (ok lock) ∷ []))
        (copy_back_lockfile W M ctx)
  unfolding copy_back_lockfile require_ssh exec_capture
  copy_back_lockfile-Does = silent _ (ensure M.connected no_connection) _ λ _ _.
      bind-Succeeds _ (λ lock es. es ≡ captured (lockfile_cmd ctx) (ok lock) ∷ []) _ _ _
        (event-Succeeds _ _ (captured (lockfile_cmd ctx)) (λ h. W.capture h (lockfile_cmd ctx))
          λ _. refl)
        λ lock es e.
          weaker-Succeeds _ _ _ _
            (λ _ more d. (lock, ap (λ l. es ++ l) (no_events more d.0) ∙ append-nil es ∙ e))
            (Emits-Succeeds _ _ _ _
              (apply_remote_lockfile-Emits W ctx (λ _. ⊥) ctx.update_lockfile lock.1))

  succeeded :
      (code : ℕ)
      → ◌≡◌ {A = Result SessionError (Unit {0})} (ensure (code == 0) (find_failed code)) (ok tt)
      → code ≡ 0
  succeeded code h = go (code == 0) refl h
    where
      go :
          (b : Bool)
          → (code == 0) ≡ b
          → ◌≡◌ {A = Result SessionError (Unit {0})} (ensure b (find_failed code)) (ok tt)
          → code ≡ 0
      go true z h = (==_iff code 0).0 z
      go false z h = cc

  -- Copying back that succeeds, and is not dry, has fetched all that was found.
  pub copy_back_binaries-ProductsBack :
      (args : List Text)
      → ctx.dry_run ≡ false
      → Does (ProductsBack args) (copy_back_binaries W M ctx args)
  unfolding copy_back_binaries copy_back_from require_ssh exec_capture
  copy_back_binaries-ProductsBack args live = silent _ (profile_of args) _ λ profile named.
      live-Succeeds _ _ _ _ _ live (
        silent _ (ensure M.connected no_connection) _ λ _ _.
          bind-Succeeds _ (λ r es. es ≡ captured (find_cmd ctx profile) (ok r) ∷ []) _ _ _
            (event-Succeeds _ _ (captured (find_cmd ctx profile))
              (λ h. W.capture h (find_cmd ctx profile)) λ _. refl)
            λ (code, out) es found. silent _ (ensure (code == 0) (find_failed code)) _ λ _ worked.
              bind-Succeeds _ _ _ _ _
                (fetch_files-Does (local_profile_dir ctx profile) (found_files M.lossy out))
                λ _ fs back.
                  weaker-Succeeds _ _ _ _
                    (λ _ ls d.
                      whole profile code out es fs ls named found (succeeded code worked) back d)
                    copy_back_lockfile-Does)
    where
      whole :
          (profile : Text) (code : ℕ) (out : Bytes) (es fs ls : List Event)
          → profile_of args ≡ ok profile
          → es ≡ captured (find_cmd ctx profile) (ok (code, out)) ∷ []
          → code ≡ 0
          → FilesBack (local_profile_dir ctx profile) (found_files M.lossy out) fs
          → (lock : ℕ × Bytes) × (ls ≡ captured (lockfile_cmd ctx) (ok lock) ∷ [])
          → ProductsBack args (es ++ (fs ++ ls))
      whole profile code out es fs ls named found zero back (lock, read) =
          subst (ProductsBack args)
            (ap
                (λ n.
                  captured (find_cmd ctx profile) (ok (n, out))
                  ∷ (fs ++ captured (lockfile_cmd ctx) (ok lock) ∷ []))
                (sym zero)
              ∙ ap (λ l. l ++ (fs ++ captured (lockfile_cmd ctx) (ok lock) ∷ [])) (sym found)
              ∙ ap (λ l. es ++ (fs ++ l)) (sym read))
            (products_back profile out fs lock named back)
