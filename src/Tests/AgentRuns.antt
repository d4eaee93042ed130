-- ===== src/Tests/AgentRuns.antt =====
-- src/agent.rs at small frames, paths and signatures.
use cargo_remote.Prelude.{◌≡◌, refl, [], ◌∷◌, codes, Text, some, ok, arith}
use cargo_remote.Prelude.LeBytes.{to_le_bytes}
use cargo_remote.Agent.Frames.{
  data_msg, stderr_msg, other_msg, ChannelIo, read_frame, read_frame_std, write_frame,
}
use cargo_remote.Agent.Framing.{
  Gives, bytes_of, IsOpen, read_frame-Gives, read_frame_std-write_frame,
}
use cargo_remote.Agent.Paths.{pieces, resolve_under}
use cargo_remote.Agent.Confined.{IsUnder, resolve_under-IsUnder}

abbrev started : ChannelIo
started = record { buf = 2 ∷ 0 ∷ []; stderr_tail = [] }

-- A frame of two bytes, cut in three, and the first byte of the next one.
read_frame-Gives_example :
    Gives
      (read_frame started (
        data_msg (0 ∷ 0 ∷ 7 ∷ [])
        ∷ stderr_msg (1 ∷ [])
        ∷ data_msg (8 ∷ 9 ∷ 5 ∷ [])
        ∷ other_msg
        ∷ []))
      7
      (8 ∷ 9 ∷ [])
      (5 ∷ [])
read_frame-Gives_example =
    read_frame-Gives 7 (8 ∷ 9 ∷ []) (5 ∷ []) started
      (data_msg (0 ∷ 0 ∷ 7 ∷ []) ∷ stderr_msg (1 ∷ []) ∷ data_msg (8 ∷ 9 ∷ 5 ∷ []) ∷ other_msg ∷ [])
      (omega arith) (unfold IsOpen in tt) (unfold bytes_of to_le_bytes in refl)

read_frame_std-write_frame_example :
    read_frame_std (2 ∷ 0 ∷ 0 ∷ 0 ∷ 7 ∷ 8 ∷ 9 ∷ 5 ∷ []) ≡ ok (some ((7, 8 ∷ 9 ∷ []), 5 ∷ []))
read_frame_std-write_frame_example =
    read_frame_std-write_frame 7 (8 ∷ 9 ∷ []) (2 ∷ 0 ∷ 0 ∷ 0 ∷ 7 ∷ 8 ∷ 9 ∷ []) (5 ∷ [])
      (omega arith) (unfold write_frame to_le_bytes in refl)

abbrev build_dir : Text
build_dir = codes "build"

resolve_under-IsUnder_example :
    IsUnder (build_dir ∷ []) (build_dir ∷ codes "src" ∷ codes "a.rs" ∷ [])
resolve_under-IsUnder_example =
    resolve_under-IsUnder (build_dir ∷ []) (codes "./src//a.rs")
      (build_dir ∷ codes "src" ∷ codes "a.rs" ∷ []) (unfold resolve_under pieces in refl)
