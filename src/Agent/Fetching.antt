-- ===== src/Agent/Fetching.antt =====
-- src/agent.rs: copying files back, `Agent::fetch` and `serve_fetch`, per file: the signature of
-- the client's old copy, the agent's answer, and what the client does with the answer.
use cargo_remote.Prelude.{
  ℕ, ◌^◌, ◌%◌, List, [], ◌∷◌, ◌++◌, Text, Bytes, Bool, true, false, not, Option, none, some, Result,
  ok, err, ensure, if◌then◌else◌, length, is_empty, text_eq,
}
use cargo_remote.Prelude as P
use cargo_remote.Rsync.Wire.{sig_from_bytes}
use cargo_remote.Agent.Frames.{pack_hdr, unpack_hdr}
use cargo_remote.Agent.Paths.{basename, checked_basename}
use cargo_remote.Agent.Plan.{FileMeta, kind_file}
use cargo_remote.Agent.Disk.{
  FilePath, ReadResult, contents, not_found, read_failed, Disk, AgentError, bad_path, bad_frame,
  bad_signature, os_error, wrong_answer, Act, ◌>>=◌, ◌>>◌, pure, lift,
}
use cargo_remote.Agent.Storing.{pos, write_file_atomic}
use cargo_remote.Agent.Messages.{FileHdr, Json}
use cargo_remote.Agent.Server.{map_err, put_content, read_or_empty, sig_payload}
use cargo_remote.Agent.Sending.{Sigs, sig_at, file_hdr, file_body}

-- A frame of `serve_fetch`'s first loop: the signature is kept unless it is empty.
unfoldable pub keep_sig : Text → ℕ → Bytes → Sigs → Result AgentError Sigs
unfolding map_err
keep_sig path bl [] sigs = ok sigs
keep_sig path bl (b ∷ body) sigs =
    P.◌>>=◌ (map_err bad_signature (sig_from_bytes (b ∷ body))) λ sig. ok ((path, (bl, sig)) ∷ sigs)

-- The header of a file that the agent could not find.
abbrev pub vanished_hdr : Text → FileHdr
vanished_hdr rel = record {
  path = rel;
  mode = 0;
  mtime = pos 0;
  kind = 0;
  link = none;
  delta = false;
  block_len = 0;
  exists = false;
  len = 0;
}

-- What `serve_fetch` says of a file that it has read, by its mode and time.
abbrev pub fetched_meta : Text → ℕ → ℕ → Bytes → FileMeta
fetched_meta rel mode mtime bytes = record {
  path = rel;
  len = length bytes;
  mtime = mtime;
  mode = mode % 2 ^ 9;
  kind = kind_file;
  link = none;
}

module _ (J : Json) (digest : Bytes → Bytes) where
  unfoldable pub take_sig : Bytes → Sigs → Result AgentError Sigs
  unfolding map_err keep_sig
  take_sig payload sigs =
      P.◌>>=◌ (map_err bad_frame (unpack_hdr J.encode_sig J.decode_sig payload))
        λ (hdr, body). keep_sig hdr.path hdr.block_len body sigs

  -- The FETCHED payload for one path, from what `read_no_follow` gives and the mode and time that
  -- `symlink_metadata` gives.
  unfoldable pub fetched_payload : Sigs → Text → ℕ → ℕ → ReadResult → Result AgentError Bytes
  unfolding file_hdr file_body sig_at
  fetched_payload sigs rel mode mtime not_found =
      ok (pack_hdr J.encode_file J.decode_file (vanished_hdr rel) [])
  fetched_payload sigs rel mode mtime read_failed = err os_error
  fetched_payload sigs rel mode mtime (contents bytes) =
      P.◌>>=◌
        (file_body digest (file_hdr (fetched_meta rel mode mtime bytes)) bytes (sig_at sigs rel))
        λ (hdr, body). ok (pack_hdr J.encode_file J.decode_file hdr body)

  module _ (D : Disk) where
    -- The signature that the client sends for a path: that of its copy in `dest_dir`.
    unfoldable pub fetch_sig : FilePath → Text → D.State → Bytes
    unfolding sig_payload basename
    fetch_sig dest_dir rel s = sig_payload D J digest rel (D.read s (dest_dir ++ basename rel ∷ []))

    -- A file that exists: written under its checked name.
    unfoldable pub store_fetched : FilePath → Text → FileHdr → Bytes → Act D.State (Option Text)
    unfolding map_err checked_basename put_content read_or_empty
    store_fetched dest_dir rel hdr body = do
      name ← lift (map_err bad_path (checked_basename rel))
      content ← (λ s. (put_content hdr body (read_or_empty (D.read s (dest_dir ++ name ∷ []))), s))
      write_file_atomic D (dest_dir ++ name ∷ []) content hdr.mode hdr.mtime
      pure (some name)

    -- What the client does with a FETCHED payload; the name if it wrote a file.
    unfoldable pub take_fetched : FilePath → Text → Bytes → Act D.State (Option Text)
    unfolding map_err store_fetched
    take_fetched dest_dir rel payload = do
      (hdr, body) ← lift (map_err bad_frame (unpack_hdr J.encode_file J.decode_file payload))
      lift (ensure (text_eq hdr.path rel) wrong_answer)
      (if hdr.exists then store_fetched dest_dir rel hdr body else pure none)
