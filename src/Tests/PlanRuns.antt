-- ===== src/Tests/PlanRuns.antt =====
-- src/agent.rs: the plan of a sync of three local entries with three that the agent lists.
use cargo_remote.Prelude.{ℕ, ◌≡◌, refl, List, [], ◌∷◌, codes, Text, true, none, map}
use mathlib.Core.List.{Memᴰ}
use mathlib.Core.List.Memᴰ as Mem
use cargo_remote.Agent.Plan.{FileMeta, kind_file, kind_dir, deletes, insert_entry, plan_sync}
use cargo_remote.Agent.PlanCovers.{Handled, plan_sync-Handled}
use cargo_remote.Agent.Deletes.{ChildrenFirst, deletes-ChildrenFirst, deletes_mem}

abbrev entry : Text → ℕ → ℕ → FileMeta
entry path kind len = record {
  path = path;
  len = len;
  mtime = 5;
  mode = 0o644;
  kind = kind;
  link = none;
}

abbrev locals : List FileMeta
locals =
    entry (codes "a.rs") kind_file 3
    ∷ entry (codes "src") kind_dir 0
    ∷ entry (codes "src/b.rs") kind_file 7
    ∷ []

abbrev listed : List FileMeta
listed =
    entry (codes "a.rs") kind_file 4
    ∷ entry (codes "old") kind_dir 0
    ∷ entry (codes "old/c.rs") kind_file 7
    ∷ []

plan_run : (plan_sync locals listed).mkdirs ≡ codes "src" ∷ []
unfolding plan_sync
plan_run = refl

deletes_run : map (λ m. m.path) (deletes true locals listed) ≡ codes "old/c.rs" ∷ codes "old" ∷ []
unfolding deletes insert_entry
deletes_run = refl

plan_sync-Handled_example :
    Handled listed (entry (codes "src") kind_dir 0) (plan_sync locals listed)
plan_sync-Handled_example =
    plan_sync-Handled locals listed (entry (codes "src") kind_dir 0) (Mem.tail (Mem.head refl))

deletes-ChildrenFirst_example : ChildrenFirst (deletes true locals listed)
deletes-ChildrenFirst_example = deletes-ChildrenFirst true locals listed

deletes_mem_example :
    (true ≡ true)
    × Memᴰ (entry (codes "old") kind_dir 0) listed
    × ((m : FileMeta) → Memᴰ m locals → ¬ (m.path ≡ codes "old"))
deletes_mem_example =
    deletes_mem true locals listed (entry (codes "old") kind_dir 0)
      (unfold deletes insert_entry in Mem.tail (Mem.head refl))
