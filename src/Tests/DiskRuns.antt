-- ===== src/Tests/DiskRuns.antt =====
-- src/agent.rs: writes and puts on a file system in memory.
use cargo_remote.Prelude.{◌≡◌, refl, [], ◌∷◌, ◌++◌, codes, true, false, none, err}
use cargo_remote.Agent.Plan.{FileMeta}
use cargo_remote.Agent.Disk.{Node, file_node, AgentError}
use cargo_remote.Agent.Disk.Memory.{
  memory, memory-IsLawful, path_eq, allowed, is_file, is_absent, make_dir,
}
use cargo_remote.Agent.Storing.{pos, write_file_atomic}
use cargo_remote.Agent.Atomic.{WholeOrUntouched, OthersMade, write_file_atomic-WholeOrUntouched}
use cargo_remote.Agent.Disk.{effect, go_on, is_prefix}
use cargo_remote.Tests.Fixtures.{project-Direct, sevens, project, disk_with}

-- On a full device the old file stays.
write_file_atomic-WholeOrUntouched_example :
    WholeOrUntouched memory
      (disk_with true)
      (project ++ codes "a.rs" ∷ [])
      (9 ∷ [])
      0o4755
      (pos 7)
      (write_file_atomic memory
        (project ++ codes "a.rs" ∷ [])
        (9 ∷ [])
        0o4755
        (pos 7)
        (disk_with true))
    × OthersMade memory
        (disk_with true)
        (write_file_atomic memory
          (project ++ codes "a.rs" ∷ [])
          (9 ∷ [])
          0o4755
          (pos 7)
          (disk_with true)).1
        project
        (codes "a.rs")
write_file_atomic-WholeOrUntouched_example =
    write_file_atomic-WholeOrUntouched memory memory-IsLawful (disk_with true) project
      (codes "a.rs") (9 ∷ []) 0o4755 (pos 7) (project-Direct true)

-- With room the file is replaced, without its set-uid bit and with a time that has passed.
written :
    ((write_file_atomic memory
          (project ++ codes "a.rs" ∷ [])
          (9 ∷ [])
          0o4755
          (pos 700)
          (disk_with false)).1.node
        (codes "p" ∷ codes "a.rs" ∷ [])
      ≡ file_node (record { content = 9 ∷ []; mode = 0o755; mtime = 100 }))
    × ((write_file_atomic memory
          (project ++ codes "a.rs" ∷ [])
          (9 ∷ [])
          0o4755
          (pos 700)
          (disk_with true)).0
        ≡ err AgentError.os_error)
unfolding write_file_atomic allowed is_file is_absent make_dir path_eq go_on effect is_prefix
written = (refl, refl)

abbrev new_meta : FileMeta
new_meta = record {
  path = codes "a.rs";
  len = 2049;
  mtime = 9;
  mode = 0o600;
  kind = 0;
  link = none;
}

abbrev new_node : Node
new_node = file_node (record { content = 9 ∷ sevens; mode = 0o600; mtime = 9 })
