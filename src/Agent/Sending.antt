-- ===== src/Agent/Sending.antt =====
-- src/agent.rs: the client's side of a sync after the plan, `read_for_send` and the loops of
-- `Agent::sync` over signatures and files. `sigs` is the map that the client fills.
use cargo_remote.Prelude.{
  ℕ, List, [], ◌∷◌, Text, Bytes, Bool, true, false, not, ◌&&◌, Option, none, some, Result, ok, err,
  ◌>>=◌, ◌>>◌, ensure, if◌then◌else◌, ◌==◌, ltb, length, is_empty, text_eq,
}
use cargo_remote.Rsync.Checksum.{BlockSig, signature}
use cargo_remote.Rsync.Wire.{sig_from_bytes}
use cargo_remote.Rsync.Delta.{delta}
use cargo_remote.Agent.Frames.{pack_hdr, unpack_hdr}
use cargo_remote.Agent.Paths.{hdr_block_len, check_sig_size}
use cargo_remote.Agent.Plan.{FileMeta, kind_file}
use cargo_remote.Agent.Disk.{
  Node, file_node, link_node, absent, AgentError, bad_path, bad_frame, bad_signature, os_error,
  wrong_answer, changed_file, endless,
}
use cargo_remote.Agent.Storing.{pos}
use cargo_remote.Agent.Messages.{FileHdr, Json}
use cargo_remote.Agent.Server.{map_err}

-- `read_for_send`, from what lies at the path: a link is not followed, and a file is taken only
-- with the length and the time of the walk.
unfoldable pub read_for_send : FileMeta → Node → Result AgentError Bytes
read_for_send m absent = err os_error
read_for_send m (link_node target) = err os_error
read_for_send m (file_node f) = do
  ensure (length f.content == m.len) changed_file
  ensure (f.mtime == m.mtime) changed_file
  ok f.content
read_for_send m _ = err changed_file

abbrev pub Sigs : Type 0
Sigs = List (Text × (ℕ × List BlockSig))

-- `sigs.get(path)`; a later entry replaces an earlier one.
unfoldable pub sig_at : Sigs → Text → Option (ℕ × List BlockSig)
sig_at [] path = none
sig_at ((p, sig) ∷ sigs) path =
    let rest = sig_at sigs path in if text_eq p path then some sig else rest

-- The header of a PUT; a delta and its block length are set later.
unfoldable pub file_hdr : FileMeta → FileHdr
file_hdr m = record {
  path = m.path;
  mode = m.mode;
  mtime = pos m.mtime;
  kind = m.kind;
  link = m.link;
  delta = false;
  block_len = 0;
  exists = true;
  len = m.len;
}

-- `a == b` of signatures
unfoldable pub same_sigs : List BlockSig → List BlockSig → Bool
same_sigs [] [] = true
same_sigs [] (t ∷ ts) = false
same_sigs (s ∷ ss) [] = false
same_sigs (s ∷ ss) (t ∷ ts) =
    ((s.a == t.a) && ((s.b == t.b) && text_eq s.strong t.strong)) && same_sigs ss ts

-- A file against its signature: the delta, when that is the shorter one.
unfoldable pub delta_or_full :
    FileHdr → ℕ → Bytes → Option Bytes → Result AgentError (FileHdr × Bytes)
delta_or_full hdr bl bytes none = err endless
delta_or_full hdr bl bytes (some d) = ok (
    if ltb (length d) (length bytes)
    then (record hdr { delta = true; block_len = bl }, d)
    else (hdr, bytes))

unfoldable pub file_body :
    (Bytes → Bytes)
    → FileHdr
    → Bytes
    → Option (ℕ × List BlockSig)
    → Result AgentError (FileHdr × Bytes)
unfolding delta_or_full
file_body digest hdr bytes none = ok (hdr, bytes)
file_body digest hdr bytes (some (bl, sig)) = delta_or_full hdr bl bytes (delta digest bytes sig bl)

module _ (J : Json) (digest : Bytes → Bytes) where
  -- The answer to one path of SIG_REQ whose remote length is `listed`.
  unfoldable pub collect_sig : ℕ → Bytes → Sigs → Result AgentError Sigs
  unfolding map_err
  collect_sig listed payload sigs = do
    (hdr, body) ← map_err bad_frame (unpack_hdr J.encode_sig J.decode_sig payload)
    (if is_empty body then ok sigs else (do
      map_err bad_path (check_sig_size listed (hdr_block_len hdr.block_len) (length body))
      sig ← map_err bad_signature (sig_from_bytes body)
      ok ((hdr.path, (hdr.block_len, sig)) ∷ sigs)))

  -- The answer for a file that the plan took for unchanged: whether it has to be sent.
  unfoldable pub verify_sig : FileMeta → Bytes → Node → Result AgentError Bool
  unfolding map_err read_for_send same_sigs
  verify_sig m payload node = do
    (hdr, body) ← map_err bad_frame (unpack_hdr J.encode_sig J.decode_sig payload)
    ensure (text_eq hdr.path m.path) wrong_answer
    bytes ← read_for_send m node
    let bl = hdr_block_len hdr.block_len
    map_err bad_path (check_sig_size m.len bl (length body))
    sig ← map_err bad_signature (sig_from_bytes body)
    ok (not (same_sigs (signature digest bytes bl) sig))

  -- The PUT payload of one entry of `sends`, and what lies at its path.
  unfoldable pub put_payload : Sigs → FileMeta → Node → Result AgentError Bytes
  unfolding sig_at file_hdr file_body read_for_send
  put_payload sigs m node =
      if m.kind == kind_file
      then (do
        bytes ← read_for_send m node
        (hdr, body) ← file_body digest (file_hdr m) bytes (sig_at sigs m.path)
        ok (pack_hdr J.encode_file J.decode_file hdr body))
      else ok (pack_hdr J.encode_file J.decode_file (file_hdr m) [])
