-- ===== src/Session/LockOutcomes.antt =====
-- src/runner.rs: what `apply_remote_lockfile` leaves in the project's directory.
use cargo_remote.Prelude.{
  ◌≡◌, refl, sym, List, [], ◌∷◌, Text, Bytes, codes, Bool, true, false, Option, none, some, Result,
  ok, err, ensure, subst, if◌then◌else◌, unwrap_or, is_empty, text_eq, text_eq→eq, ◌⊎◌, inl, inr,
}
use cargo_remote.Session.{SessionError, failed, Event, World, Session, Lockfiles, go_on, ◌>>◌}
use cargo_remote.Session.Lockfile.{
  write_review, write_staging, rename_staging, apply_remote_lockfile,
}

-- A write that worked left what was written.
abbrev pub WritesAll : World → Type 0
WritesAll W =
    (h : List Event) (name : Text) (bytes : Bytes)
    → (W.write_file h name bytes).0 ≡ true
    → (W.write_file h name bytes).1 ≡ some bytes

-- The result and the files after it, for the files `fs` before.
pub data LockOutcome (update : Bool) (remote : Bytes) (fs : Lockfiles)
    : Result SessionError (Unit {0}) → Lockfiles → Type 0 where
  kept : (remote ≡ []) ⊎ (unwrap_or fs.local [] ≡ remote) → LockOutcome update remote fs (ok tt) fs
  reviewed :
      update ≡ false → LockOutcome update remote fs (ok tt) (record fs { review = some remote })
  unreviewed :
      (part : Option Bytes) (e : SessionError)
      → update ≡ false
      → LockOutcome update remote fs (err e) (record fs { review = part })
  updated :
      update ≡ true
      → LockOutcome update remote fs (ok tt) (record fs { local = some remote; staging = none })
  not_updated :
      (part : Option Bytes) (e : SessionError)
      → update ≡ true
      → LockOutcome update remote fs (err e) (record fs { staging = part })

module _ (W : World) (update : Bool) (remote : Bytes) (s : Session) (writes : WritesAll W) where
  abbrev Leaves : Result SessionError (Unit {0}) × Session → Type 0
  Leaves r = LockOutcome update remote s.lockfiles r.0 r.1.lockfiles

  empty_text : (x : Bytes) → is_empty x ≡ true → x ≡ []
  empty_text [] h = refl
  empty_text (b ∷ bs) h = cc

  write_review-Leaves : update ≡ false → Leaves (write_review W remote s)
  unfolding write_review
  write_review-Leaves u = go (W.write_file s.events _ remote) (writes s.events _ remote)
    where
      go :
          (r : Bool × Option Bytes)
          → (r.0 ≡ true → r.1 ≡ some remote)
          → LockOutcome update remote s.lockfiles
              (ensure r.0 failed)
              (record s.lockfiles { review = r.1 })
      go (true, file) h =
          subst
            (λ f. LockOutcome update remote s.lockfiles (ok tt) (record s.lockfiles { review = f }))
            (sym (h refl)) (reviewed u)
      go (false, file) h = unreviewed file failed u

  staged-Leaves : update ≡ true → Leaves ((do write_staging W remote; rename_staging W) s)
  unfolding write_staging rename_staging go_on
  staged-Leaves u =
      go (W.write_file s.events _ remote) (writes s.events _ remote)
        (λ t. W.rename t.events (codes ".cargo-remote-lockfile-tmp") (codes "Cargo.lock"))
    where
      staged : Option Bytes → Session
      staged file = record s { lockfiles = record s.lockfiles { staging = file } }

      move : Bool → Session → Result SessionError (Unit {0}) × Session
      move b t =
          if b
          then (
            ok tt,
            record t {
              lockfiles = record t.lockfiles { local = t.lockfiles.staging; staging = none };
            },
          )
          else (ensure false failed, t)

      moved :
          (file : Option Bytes) → file ≡ some remote → (b : Bool) → Leaves (move b (staged file))
      moved file h true =
          subst
            (λ f.
              LockOutcome update remote s.lockfiles (ok tt)
                (record s.lockfiles { local = f; staging = none }))
            (sym h) (updated u)
      moved file h false = not_updated file failed u

      go :
          (r : Bool × Option Bytes)
          → (r.0 ≡ true → r.1 ≡ some remote)
          → (b : Session → Bool)
          → Leaves (go_on (ensure r.0 failed) (staged r.1) (λ _ t. move (b t) t))
      go (true, file) h b = moved file (h refl) (b (staged file))
      go (false, file) h b = not_updated file failed u

  -- When a write that works leaves what was written, the lock file of the remote has one of these
  -- outcomes. It is empty or the same as the one here, and no file changes. Without
  -- `--update-lockfile` only the copy for review changes, and holds it unless the write failed.
  -- With it the copy for review stays, and the lock file here is replaced as a whole, or, when
  -- the write or the rename failed, not at all.
  pub apply_remote_lockfile-LockOutcome : Leaves (apply_remote_lockfile W update remote s)
  unfolding apply_remote_lockfile
  apply_remote_lockfile-LockOutcome =
      go (is_empty remote) refl (text_eq (unwrap_or s.lockfiles.local []) remote) refl update refl
    where
      go :
          (e : Bool)
          → is_empty remote ≡ e
          → (same : Bool) → text_eq (unwrap_or s.lockfiles.local []) remote ≡ same
          → (u : Bool) → update ≡ u
          → Leaves (
              if e
              then (ok tt, s)
              else if same
              then (ok tt, s)
              else if u
              then (do write_staging W remote; rename_staging W) s
              else write_review W remote s)
      go true e same m u h = kept (inl (empty_text remote e))
      go false e true m u h = kept (inr (text_eq→eq _ _ m))
      go false e false m true h = staged-Leaves h
      go false e false m false h = write_review-Leaves h
