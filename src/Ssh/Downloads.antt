-- ===== src/Ssh/Downloads.antt =====
-- src/ssh.rs: the files that `exec_download` leaves.
use cargo_remote.Prelude.{
  ℕ, ◌+◌, ◌≤◌, ◌≡◌, refl, sym, ap, ◌∙◌, List, [], ◌∷◌, ◌++◌, Bytes, Bool, true, false, Option, none,
  some, Result, ok, err, if◌then◌else◌, ◌==◌, ltb, length, not, unwrap_or, or_else, arith,
  append_assoc, append-nil, length-append, ok-injective, err-ne-ok, subst, ==_iff,
}
use cargo_remote.Ssh.Exec.{
  Msg, stdout_msg, stderr_msg, exit_status, closed, timed_out, other, ExecError, over_cap,
  write_failed, max_download, Files, Disk, download_loop, settle_download, download_body, clean_up,
  exec_download,
}
use cargo_remote.Ssh.Captures.{output_of, status_of, last_status, or_else-none}

finished :
    (code last : Option ℕ) (file whole : Bytes)
    → length file ≤ max_download
    → ◌≡◌ {A = Result ExecError (Option ℕ × Bytes)} (ok (code, file)) (ok (last, whole))
    → (whole ≡ file ++ []) × (length whole ≤ max_download) × (last ≡ code)
finished code last file whole l h =
    let pair = ok-injective h in
    let same = ap (λ p. p.1) pair in
    (
      sym same ∙ sym (append-nil file),
      subst (λ w. length w ≤ max_download) same l,
      sym (ap (λ p. p.0) pair),
    )

-- A round of the loop that went on.
went_on :
    {A : Type 0} {y : A} (over fine : Bool) (e f : ExecError) (k : Result ExecError A)
    → (if over then err e else if fine then k else err f) ≡ ok y
    → (over ≡ false) × (k ≡ ok y)
went_on true fine e f k h = absurd (err-ne-ok h)
went_on false true e f k h = (refl, h)
went_on false false e f k h = absurd (err-ne-ok h)

download_loop-output :
    (disk : Disk) (msgs : List Msg) (code last : Option ℕ) (total : ℕ) (file whole : Bytes)
    → total ≡ length file
    → length file ≤ max_download
    → download_loop disk msgs code total file ≡ ok (last, whole)
    → (whole ≡ file ++ output_of msgs)
      × (length whole ≤ max_download)
      × (last ≡ or_else (status_of msgs) code)
unfolding download_loop output_of status_of
download_loop-output disk [] code last total file whole s l h = finished code last file whole l h
download_loop-output disk (stdout_msg d ∷ msgs) code last total file whole s l h =
    let (below, rest) =
      went_on (ltb max_download (total + length d)) (disk.writes file d) over_cap write_failed _
        h in
    let size = length-append file d in
    let (w, b, e) =
      download_loop-output disk msgs code last (total + length d) (file ++ d) whole
        (omega (arith, size)) (ground (arith, size)) rest in
    (w ∙ append_assoc file d (output_of msgs), b, e)
download_loop-output disk (stderr_msg d ∷ msgs) code last total file whole s l h =
    download_loop-output disk msgs code last total file whole s l h
download_loop-output disk (exit_status n ∷ msgs) code last total file whole s l h =
    let (w, b, e) = download_loop-output disk msgs (some n) last total file whole s l h in
    (w, b, e ∙ sym (last_status (status_of msgs) code n))
download_loop-output disk (closed ∷ msgs) code last total file whole s l h =
    finished code last file whole l h
download_loop-output disk (timed_out ∷ msgs) code last total file whole s l h = absurd (err-ne-ok h)
download_loop-output disk (other ∷ msgs) code last total file whole s l h =
    download_loop-output disk msgs code last total file whole s l h

-- What a download leaves, by its result.
unfoldable pub Atomic : Disk → List Msg → Files → Result ExecError (Unit {0}) × Files → Type 0
Atomic disk msgs before (ok u, after) =
    (after ≡ record { tmp = none; dest = some (output_of msgs, 0o755) })
    × (length (output_of msgs) ≤ max_download)
    × (status_of msgs ≡ some 0)
Atomic disk msgs before (err e, after) =
    (after.dest ≡ before.dest) × (disk.removes ≡ true → after.tmp ≡ none)

exit_zero : (code : Option ℕ) → (unwrap_or code 255 == 0) ≡ true → code ≡ some 0
exit_zero none h = cc
exit_zero (some n) h = ap some ((==_iff _ _).0 h)

-- A failure that left the destination alone.
failed :
    (disk : Disk) (msgs : List Msg) (files : Files) (e : ExecError) (tmp : Option (Bytes × ℕ))
    → Atomic disk msgs files (clean_up disk (err e, record files { tmp = tmp }))
unfolding clean_up Atomic
failed disk msgs files e tmp = go disk.removes refl
  where
    after : Bool → Files
    after removes = if removes then record files { tmp = none } else record files { tmp = tmp }

    go :
        (b : Bool)
        → disk.removes ≡ b
        → ((after b).dest ≡ files.dest) × (disk.removes ≡ true → (after b).tmp ≡ none)
    go true h = (refl, λ _. refl)
    go false h = (refl, λ k. cc)

settle-Atomic :
    (disk : Disk) (msgs : List Msg) (code : Option ℕ) (file : Bytes) (files : Files)
    → file ≡ output_of msgs
    → length file ≤ max_download
    → code ≡ status_of msgs
    → Atomic disk msgs files (clean_up disk (settle_download disk code file files))
unfolding settle_download clean_up Atomic
settle-Atomic disk msgs code file files e l c =
    go disk.flushes (unwrap_or code 255 == 0) refl disk.chmods disk.renames
  where
    go :
        (flushes zero_code : Bool)
        → (unwrap_or code 255 == 0) ≡ zero_code
        → (chmods renames : Bool)
        → Atomic disk msgs files (
            clean_up disk (
              if not flushes
              then (err ExecError.flush_failed, record files { tmp = some (file, disk.new_mode) })
              else if zero_code
              then if chmods
                then if renames
                  then (ok tt, record { tmp = none; dest = some (file, 0o755) })
                  else (err ExecError.rename_failed, record files { tmp = some (file, 0o755) })
                else (err ExecError.chmod_failed, record files { tmp = some (file, disk.new_mode) })
              else (
                err (ExecError.command_failed (unwrap_or code 255)),
                record files { tmp = some (file, disk.new_mode) },
              )))
    go false zero_code z chmods renames =
        failed disk msgs files ExecError.flush_failed (some (file, disk.new_mode))
    go true false z chmods renames =
        failed disk msgs files (ExecError.command_failed (unwrap_or code 255))
          (some (file, disk.new_mode))
    go true true z false renames =
        failed disk msgs files ExecError.chmod_failed (some (file, disk.new_mode))
    go true true z true false = failed disk msgs files ExecError.rename_failed (some (file, 0o755))
    go true true z true true =
        (rw e, subst (λ w. length w ≤ max_download) e l, sym c ∙ exit_zero code z)

-- A download is all or nothing, whatever the messages are and whichever call of the operating system
-- fails: when it succeeds, the destination is the whole output up to the end of the channel, at
-- most `MAX_DOWNLOAD` bytes, runnable, and the command exited with 0; else the destination is what
-- it was. No temporary file is left after a success, nor after a failure when it can be removed.
pub exec_download-Atomic :
    (disk : Disk) (msgs : List Msg) (files : Files)
    → Atomic disk msgs files (exec_download disk msgs files)
unfolding exec_download download_body Atomic
exec_download-Atomic disk msgs files = go disk.creates (download_loop disk msgs none 0 []) refl
  where
    go :
        (creates : Bool) (r : Result ExecError (Option ℕ × Bytes))
        → download_loop disk msgs none 0 [] ≡ r
        → Atomic disk msgs files (
            clean_up disk (
              if creates
              then elim r as (λ r. Result ExecError (Unit {0}) × Files) [
                | ok (code, file) ↦ settle_download disk code file files
                | err e ↦ (err e, record files { tmp = some ([], disk.new_mode) })
              ]
              else (err ExecError.create_failed, files)))
    go false r h = failed disk msgs files ExecError.create_failed files.tmp
    go true (err e) h = failed disk msgs files e (some ([], disk.new_mode))
    go true (ok (code, file)) h =
        let (w, b, c) =
          download_loop-output disk msgs none code 0 [] file (omega arith) (omega arith) h in
        settle-Atomic disk msgs code file files w b (c ∙ or_else-none (status_of msgs))
