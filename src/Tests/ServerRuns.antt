-- ===== src/Tests/ServerRuns.antt =====
-- src/agent.rs: the frames of a sync on a file system in memory.
use cargo_remote.Prelude.{ℕ, List, [], ◌∷◌, codes, Bytes, true, false, none, Result, ok}
use cargo_remote.Agent.Frames.{FrameError, pack_hdr}
use cargo_remote.Agent.Disk.Memory.{memory}
use cargo_remote.Agent.Storing.{pos}
use cargo_remote.Agent.Messages.{FileHdr}
use cargo_remote.Agent.Server.{Served}
use cargo_remote.Agent.ServedCalls.{logged}
use cargo_remote.Tests.Fixtures.{row, served}

abbrev put_hdr : FileHdr
put_hdr = record {
  path = codes "b";
  mode = 0o644;
  mtime = pos 9;
  kind = 0;
  link = none;
  delta = false;
  block_len = 0;
  exists = true;
  len = 2;
}

abbrev frames : List (Result FrameError (ℕ × Bytes))
frames =
    ok (9, codes "src")
    ∷ ok (7, pack_hdr row.encode_file row.decode_file put_hdr (5 ∷ 6 ∷ []))
    ∷ ok (8, codes "a.rs")
    ∷ ok (10, [])
    ∷ []

abbrev logging : Served (logged memory)
logging = record { disk = (served.disk, []); out = []; files = 0; bytes = 0 }
