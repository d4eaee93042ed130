-- ===== src/Ssh/Exec.antt =====
-- src/ssh.rs: `exec_capture` and `exec_download`, the loops over the messages of a channel.
-- The end of the list is the end of the channel, `Ok(None)`; a timeout is a message of its own.
use cargo_remote.Prelude.{
  ℕ, ◌+◌, ◌*◌, List, [], ◌∷◌, ◌++◌, Bytes, Bool, Option, none, some, Result, ok, err, ◌>>=◌,
  if◌then◌else◌, ◌==◌, not, ltb, length, unwrap_or,
}

-- `MAX_CAPTURE` and `MAX_DOWNLOAD`
abbrev pub max_capture : ℕ
max_capture = 64 * 1024 * 1024

abbrev pub max_download : ℕ
max_download = 4 * 1024 * 1024 * 1024

pub data Msg : Type 0 where
  stdout_msg stderr_msg : Bytes → Msg
  exit_status : ℕ → Msg
  closed timed_out other : Msg

pub data ExecError : Type 0 where
  over_cap idle create_failed write_failed flush_failed chmod_failed rename_failed : ExecError
  command_failed : ℕ → ExecError

-- The loop of `exec_capture`, on what it has: the exit code and the output.
unfoldable pub capture_loop : List Msg → Option ℕ → Bytes → Result ExecError (Option ℕ × Bytes)
capture_loop [] code out = ok (code, out)
capture_loop (stdout_msg d ∷ msgs) code out =
    let rest = capture_loop msgs code (out ++ d) in
    if ltb max_capture (length (out ++ d)) then err over_cap else rest
capture_loop (stderr_msg d ∷ msgs) code out = capture_loop msgs code out
capture_loop (exit_status n ∷ msgs) code out = capture_loop msgs (some n) out
capture_loop (closed ∷ msgs) code out = ok (code, out)
capture_loop (timed_out ∷ msgs) code out = err idle
capture_loop (other ∷ msgs) code out = capture_loop msgs code out

unfoldable pub exec_capture : List Msg → Result ExecError (ℕ × Bytes)
unfolding capture_loop
exec_capture msgs = do (code, out) ← capture_loop msgs none []; ok (unwrap_or code 255, out)

-- The two files that a download touches: the temporary one and the destination, each with its
-- content and its permission bits.
pub record Files : Type 0 where
  pub tmp : Option (Bytes × ℕ)
  pub dest : Option (Bytes × ℕ)

-- The operating system's answers: whether each call succeeds, and the mode of a new file.
pub record Disk : Type 0 where
  pub creates : Bool
  pub writes : Bytes → Bytes → Bool
  pub flushes : Bool
  pub chmods : Bool
  pub renames : Bool
  pub removes : Bool
  pub new_mode : ℕ

-- The loop of `exec_download`: the file so far, and the total as it is counted. `total` does not
-- wrap: it is at most 4 GiB and one message.
unfoldable pub download_loop :
    Disk → List Msg → Option ℕ → ℕ → Bytes → Result ExecError (Option ℕ × Bytes)
download_loop disk [] code total file = ok (code, file)
download_loop disk (stdout_msg d ∷ msgs) code total file =
    let rest = download_loop disk msgs code (total + length d) (file ++ d) in
    if ltb max_download (total + length d)
    then err over_cap
    else if disk.writes file d
    then rest
    else err write_failed
download_loop disk (stderr_msg d ∷ msgs) code total file = download_loop disk msgs code total file
download_loop disk (exit_status n ∷ msgs) code total file =
    download_loop disk msgs (some n) total file
download_loop disk (closed ∷ msgs) code total file = ok (code, file)
download_loop disk (timed_out ∷ msgs) code total file = err idle
download_loop disk (other ∷ msgs) code total file = download_loop disk msgs code total file

-- After the loop: the file is flushed, the exit code is checked, and the file made runnable and moved into place.
unfoldable pub settle_download :
    Disk → Option ℕ → Bytes → Files → Result ExecError (Unit {0}) × Files
settle_download disk code file files =
    if not disk.flushes
    then (err flush_failed, record files { tmp = some (file, disk.new_mode) })
    else if unwrap_or code 255 == 0
    then if disk.chmods
      then if disk.renames
        then (ok tt, record { tmp = none; dest = some (file, 0o755) })
        else (err rename_failed, record files { tmp = some (file, 0o755) })
      else (err chmod_failed, record files { tmp = some (file, disk.new_mode) })
    else (
      err (command_failed (unwrap_or code 255)),
      record files { tmp = some (file, disk.new_mode) },
    )

-- The body of `exec_download`. Of the temporary file after a failure of the loop it is kept that it
-- is there, and not what is in it.
unfoldable pub download_body : Disk → List Msg → Files → Result ExecError (Unit {0}) × Files
unfolding download_loop settle_download
download_body disk msgs files =
    if disk.creates
    then elim (download_loop disk msgs none 0 []) [
      | ok (code, file) ↦ settle_download disk code file files
      | err e ↦ (err e, record files { tmp = some ([], disk.new_mode) })
    ]
    else (err create_failed, files)

-- A failure removes the temporary file, if that works.
unfoldable pub clean_up :
    Disk → Result ExecError (Unit {0}) × Files → Result ExecError (Unit {0}) × Files
clean_up disk (ok u, files) = (ok u, files)
clean_up disk (err e, files) = (err e, if disk.removes then record files { tmp = none } else files)

unfoldable pub exec_download : Disk → List Msg → Files → Result ExecError (Unit {0}) × Files
unfolding download_body clean_up
exec_download disk msgs files = clean_up disk (download_body disk msgs files)
