-- ===== src/Agent/ServedCalls.antt =====
-- src/agent.rs: the paths of all calls of a sync that change the file system.
use cargo_remote.Prelude.{List, ◌∷◌}
use cargo_remote.Agent.Disk.{FilePath, Disk}

-- Any disk, with a list of the paths of its calls that change something, the last one first. Nothing
-- else is different.
abbrev pub logged : Disk → Disk
logged D = record {
  State = D.State × List FilePath;
  node_at = λ s. D.node_at s.0;
  now = λ s. D.now s.0;
  new_mode = λ s. D.new_mode s.0;
  tmp_tag = λ s. D.tmp_tag s.0;
  perform = λ c p s. ((D.perform c p s.0).0, ((D.perform c p s.0).1, p ∷ s.1));
  rename = λ from to s. ((D.rename from to s.0).0, ((D.rename from to s.0).1, from ∷ to ∷ s.1));
  create_dir_all = λ p s. ((D.create_dir_all p s.0).0, ((D.create_dir_all p s.0).1, p ∷ s.1));
  read = λ s. D.read s.0;
  read_no_follow = λ s. D.read_no_follow s.0;
}
