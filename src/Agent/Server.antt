-- ===== src/Agent/Server.antt =====
-- src/agent.rs: the agent's side of a sync, `apply_put` and the loop of `serve_sync`. What
-- `io.read_frame()` gives is a list, at whose end the client is gone.
use cargo_remote.Prelude.{
  ℕ, ◌+◌, List, [], ◌∷◌, ◌++◌, Text, Bytes, Bool, true, false, Option, none, some, Result, ok, err,
  ensure, if◌then◌else◌, ◌==◌, length, unwrap_or, is_empty,
}
use cargo_remote.Rsync.Checksum.{signature, block_len_for, block_len_default}
use cargo_remote.Rsync.Wire.{sig_to_bytes}
use cargo_remote.Rsync.Patch.{patch}
use cargo_remote.Agent.Frames.{FrameError, write_frame, pack_hdr, unpack_hdr}
use cargo_remote.Agent.Paths.{
  Component, root_dir, cur_dir, parent_dir, normal, components, resolve_under, hdr_block_len,
}
use cargo_remote.Agent.Plan.{kind_file, kind_dir, kind_link}
use cargo_remote.Agent.Disk.{
  FilePath, Node, absent, dir_node, remove_file, remove_dir, symlink, ReadResult, contents, Disk,
  AgentError, bad_path, bad_patch, bad_frame, escaping_target, disconnected, bad_json,
  unexpected_tag, Act, go_on, ◌>>=◌, ◌>>◌, pure, lift, call, ignoring,
}
use cargo_remote.Agent.Storing.{write_file_atomic}
use cargo_remote.Agent.Messages.{
  tag_sig_req, tag_sig, tag_put, tag_delete, tag_mkdir, tag_plan_done, tag_done, FileHdr, Json,
}

-- `?` on an error of another type
unfoldable pub map_err : {E A : Type 0} → (E → AgentError) → Result E A → Result AgentError A
map_err f (ok a) = ok a
map_err f (err e) = err (f e)

unfoldable pub from_json : {A : Type 0} → Option A → Result AgentError A
from_json none = err bad_json
from_json (some a) = ok a

-- `for x in xs`
unfoldable pub for_each : {S A : Type 0} → (A → Act S (Unit {0})) → List A → Act S (Unit {0})
for_each f [] = pure tt
for_each f (x ∷ xs) = do f x; for_each f xs

-- `matches!(comp, Component::Normal(_) | Component::CurDir)` for every component
unfoldable pub confined_target : List Component → Bool
confined_target [] = true
confined_target (normal w ∷ cs) = confined_target cs
confined_target (cur_dir ∷ cs) = confined_target cs
confined_target (root_dir ∷ cs) = false
confined_target (parent_dir ∷ cs) = false

-- `std::fs::read(..).unwrap_or_default()`
unfoldable pub read_or_empty : ReadResult → Bytes
read_or_empty (contents bytes) = bytes
read_or_empty _ = []

-- The new content of a file: a delta is against what is there, or nothing.
unfoldable pub put_content : FileHdr → Bytes → Bytes → Result AgentError Bytes
unfolding hdr_block_len map_err
put_content hdr body old =
    if hdr.delta
    then map_err bad_patch (patch old body (hdr_block_len hdr.block_len) hdr.len)
    else ok body

module _ (D : Disk) where
  unfoldable pub put_link : FilePath → Text → Act D.State (Unit {0})
  unfolding confined_target
  put_link dest target = do
    lift (ensure (confined_target (components target)) escaping_target)
    ignoring (D.perform remove_file dest)
    call (D.perform (symlink target) dest)

  unfoldable pub put_file : FilePath → FileHdr → Bytes → Act D.State (Unit {0})
  unfolding put_content read_or_empty
  put_file dest hdr body s =
      go_on (put_content hdr body (read_or_empty (D.read s dest))) s
        λ content. write_file_atomic D dest content hdr.mode hdr.mtime

  unfoldable pub apply_put : FilePath → FileHdr → Bytes → Act D.State (Unit {0})
  unfolding put_link put_file map_err
  apply_put root hdr body = do
    dest ← lift (map_err bad_path (resolve_under root hdr.path))
    (if hdr.kind == kind_dir
        then call (D.create_dir_all dest)
        else if hdr.kind == kind_link
        then put_link dest (unwrap_or hdr.link [])
        else put_file dest hdr body)

  -- MKDIR, for one path
  unfoldable pub make_dir_under : FilePath → Text → Act D.State (Unit {0})
  unfolding map_err
  make_dir_under root d = do
    path ← lift (map_err bad_path (resolve_under root d))
    call (D.create_dir_all path)

  -- What DELETE does at a path, from what `symlink_metadata` says.
  unfoldable pub delete_node : FilePath → Node → Act D.State (Unit {0})
  delete_node path absent = pure tt
  delete_node path dir_node = ignoring (D.perform remove_dir path)
  delete_node path _ = ignoring (D.perform remove_file path)

  unfoldable pub delete_under : FilePath → Text → Act D.State (Unit {0})
  unfolding map_err delete_node
  delete_under root d = do
    path ← lift (map_err bad_path (resolve_under root d))
    (λ s. delete_node path (D.node_at s path) s)

  -- The state of `serve_sync`: the disk, what it has written, and its two counters.
  pub record Served : Type 0 where
    pub disk : D.State
    pub out : Bytes
    pub files : ℕ
    pub bytes : ℕ

  abbrev pub on_disk : Act D.State (Unit {0}) → Act Served (Unit {0})
  on_disk m s = let r = m s.disk in (r.0, record s { disk = r.1 })

  -- `io.write_frame(..).await?`
  unfoldable pub send : ℕ → Bytes → Act Served (Unit {0})
  unfolding map_err
  send tag payload s =
      go_on (map_err bad_frame (write_frame tag payload)) s
        λ frame s. (ok tt, record s { out = s.out ++ frame })

  -- The counters after a PUT that was applied.
  unfoldable pub count_put : FileHdr → Bytes → Act Served (Unit {0})
  count_put hdr body s = (
    ok tt,
    if hdr.kind == kind_file
        then record s { files = s.files + 1; bytes = s.bytes + length body }
        else s,
  )

  module _ (J : Json) (digest : Bytes → Bytes) where
    -- The signature of a file and its block length; there is none of what cannot be read.
    unfoldable pub sig_answer : ReadResult → Bytes × ℕ
    sig_answer (contents bytes) =
        if is_empty bytes
        then ([], block_len_default)
        else (let bl = block_len_for (length bytes) in
            (sig_to_bytes (signature digest bytes bl), bl))
    sig_answer _ = ([], block_len_default)

    unfoldable pub sig_payload : Text → ReadResult → Bytes
    unfolding sig_answer
    sig_payload rel r =
        let (sig, bl) = sig_answer r in
        pack_hdr J.encode_sig J.decode_sig (record { path = rel; block_len = bl }) sig

    -- SIG_REQ, for one path
    unfoldable pub answer_sig : FilePath → Text → Act Served (Unit {0})
    unfolding map_err send sig_payload
    answer_sig root rel = do
      path ← lift (map_err bad_path (resolve_under root rel))
      (λ s. send tag_sig (sig_payload rel (D.read_no_follow s.disk path)) s)

    -- PUT
    unfoldable pub serve_put : FilePath → Bytes → Act Served (Unit {0})
    unfolding map_err apply_put count_put
    serve_put root payload = do
      (hdr, body) ← lift (map_err bad_frame (unpack_hdr J.encode_file J.decode_file payload))
      on_disk (apply_put root hdr body)
      count_put hdr body

    -- One frame, other than PLAN_DONE.
    unfoldable pub serve_frame : FilePath → ℕ → Bytes → Act Served (Unit {0})
    unfolding from_json for_each make_dir_under delete_under answer_sig serve_put
    serve_frame root t payload =
        if t == tag_mkdir
        then (do
          paths ← lift (from_json (J.decode_paths payload))
          for_each (λ d. on_disk (make_dir_under root d)) paths)
        else if t == tag_delete
        then (do
          paths ← lift (from_json (J.decode_paths payload))
          for_each (λ d. on_disk (delete_under root d)) paths)
        else if t == tag_sig_req
        then (do
          paths ← lift (from_json (J.decode_paths payload))
          for_each (answer_sig root) paths)
        else if t == tag_put
        then serve_put root payload
        else lift (err (unexpected_tag t))

    -- The loop of `serve_sync`, and the DONE frame after it.
    unfoldable pub serve_loop :
        FilePath → List (Result FrameError (ℕ × Bytes)) → Act Served (Unit {0})
    unfolding serve_frame send
    serve_loop root [] = lift (err disconnected)
    serve_loop root (err e ∷ frames) = lift (err (bad_frame e))
    serve_loop root (ok (t, payload) ∷ frames) =
        let rest = serve_loop root frames in
        if t == tag_plan_done
        then (λ s. send tag_done (J.encode_done s.files s.bytes) s)
        else (do serve_frame root t payload; rest)
