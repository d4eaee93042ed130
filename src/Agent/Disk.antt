-- ===== src/Agent/Disk.antt =====
-- src/agent.rs: the file system below the agent, which is the operating system's and so a
-- parameter: calls on a state that nobody sees but through `node_at`, and the laws of those calls.
-- A path is the list of its names below `/`. `node_at` finds what lies at exactly that place and
-- follows no link; the laws speak of paths on whose way there is no link.
pub mod Memory
use cargo_remote.Prelude.{
  ℕ, ◌≤◌, ◌≡◌, ◌≢◌, ◌⊎◌, List, [], ◌∷◌, ◌++◌, Text, Bytes, Bool, true, false, ◌&&◌, Option, Result,
  ok, err, ensure, text_eq,
}
unfoldable pub use cargo_remote.Prelude.Actions.{go_on, ◌>>=◌, ◌>>◌, pure, lift}
use cargo_remote.Prelude.Actions.{Action}
use cargo_remote.Rsync.Patch.{PatchError}
use cargo_remote.Rsync.Wire.{SigError}
use cargo_remote.Agent.Frames.{FrameError}
use cargo_remote.Agent.Paths.{PathError}

abbrev pub FilePath : Type 0
FilePath = List Text

pub record File : Type 0 where
  pub content : Bytes
  pub mode : ℕ
  pub mtime : ℕ

pub data Node : Type 0 where
  absent dir_node other_node : Node
  link_node : Text → Node
  file_node : File → Node

unfoldable pub is_link : Node → Bool
is_link (link_node target) = true
is_link _ = false

-- `starts_with` of paths
unfoldable pub is_prefix : FilePath → FilePath → Bool
is_prefix [] p = true
is_prefix (w ∷ q) [] = false
is_prefix (w ∷ q) (v ∷ p) = text_eq w v && is_prefix q p

-- The calls that change what lies at one path: `File::create_new`, `write_all`,
-- `set_permissions` and `set_file_handle_times` on the handle that it gave, `remove_file`,
-- `remove_dir` and `symlink`.
pub data Call : Type 0 where
  create_new remove_file remove_dir : Call
  write_all : Bytes → Call
  set_permissions set_times : ℕ → Call
  symlink : Text → Call

-- What a call that worked makes of a node. The mode of a new file is the process's, and a write
-- sets the time of the file to the clock's.
unfoldable pub effect : ℕ → ℕ → Call → Node → Node
effect mode now create_new node = file_node (record { content = []; mode = mode; mtime = now })
effect mode now (write_all bytes) (file_node f) =
    file_node (record f { content = f.content ++ bytes; mtime = now })
effect mode now (set_permissions m) (file_node f) = file_node (record f { mode = m })
effect mode now (set_times t) (file_node f) = file_node (record f { mtime = t })
effect mode now remove_file node = absent
effect mode now remove_dir node = absent
effect mode now (symlink target) node = link_node target
effect mode now _ node = node

pub data ReadResult : Type 0 where
  contents : Bytes → ReadResult
  not_found read_failed : ReadResult

-- The calls; the truth value says whether one worked. `tmp_tag` is what `tmp_path_for` makes of
-- the process number, its counter and the clock.
pub record Disk : Type 1 where
  pub State : Type 0
  pub node_at : State → FilePath → Node
  pub now : State → ℕ
  pub new_mode : State → ℕ
  pub tmp_tag : State → Text
  pub perform : Call → FilePath → State → Bool × State
  pub rename : FilePath → FilePath → State → Bool × State
  pub create_dir_all : FilePath → State → Bool × State
  pub read : State → FilePath → ReadResult
  pub read_no_follow : State → FilePath → ReadResult

-- No link lies at `dir` or on the way to it.
abbrev pub Direct : (D : Disk) → D.State → FilePath → Type 0
Direct D s dir = (q : FilePath) → is_prefix q dir ≡ true → is_link (D.node_at s q) ≡ false

-- What making directories does to one place: nothing, or a directory where nothing was.
abbrev pub Made : (D : Disk) → D.State → D.State → FilePath → FilePath → Type 0
Made D s s' dir q =
    (D.node_at s' q ≡ D.node_at s q)
    ⊎ (is_prefix q dir ≡ true) × (D.node_at s q ≡ absent) × (D.node_at s' q ≡ dir_node)

pub record IsLawful (D : Disk) : Type 0 where
  pub perform_done :
      (s : D.State) (c : Call) (dir : FilePath) (name : Text)
      → Direct D s dir
      → (D.perform c (dir ++ name ∷ []) s).0 ≡ true
      → D.node_at (D.perform c (dir ++ name ∷ []) s).1 (dir ++ name ∷ [])
        ≡ effect (D.new_mode s) (D.now s) c (D.node_at s (dir ++ name ∷ []))
  pub perform_others :
      (s : D.State) (c : Call) (dir : FilePath) (name : Text) (q : FilePath)
      → Direct D s dir
      → q ≢ dir ++ name ∷ []
      → D.node_at (D.perform c (dir ++ name ∷ []) s).1 q ≡ D.node_at s q
  pub perform_clock : (s : D.State) (c : Call) (p : FilePath) → D.now s ≤ D.now (D.perform c p s).1
  pub rename_done :
      (s : D.State) (dir : FilePath) (from to : Text)
      → Direct D s dir
      → (D.rename (dir ++ from ∷ []) (dir ++ to ∷ []) s).0 ≡ true
      → D.node_at (D.rename (dir ++ from ∷ []) (dir ++ to ∷ []) s).1 (dir ++ to ∷ [])
        ≡ D.node_at s (dir ++ from ∷ [])
  pub rename_others :
      (s : D.State) (dir : FilePath) (from to : Text) (q : FilePath)
      → Direct D s dir
      → q ≢ dir ++ from ∷ []
      → q ≢ dir ++ to ∷ []
      → D.node_at (D.rename (dir ++ from ∷ []) (dir ++ to ∷ []) s).1 q ≡ D.node_at s q
  pub rename_failed :
      (s : D.State) (dir : FilePath) (from to : Text) (q : FilePath)
      → Direct D s dir
      → (D.rename (dir ++ from ∷ []) (dir ++ to ∷ []) s).0 ≡ false
      → D.node_at (D.rename (dir ++ from ∷ []) (dir ++ to ∷ []) s).1 q ≡ D.node_at s q
  pub create_dir_all_made :
      (s : D.State) (dir q : FilePath) → Direct D s dir → Made D s (D.create_dir_all dir s).1 dir q
  pub create_dir_all_clock :
      (s : D.State) (dir : FilePath) → D.now s ≤ D.now (D.create_dir_all dir s).1

-- What can go wrong in an agent.
pub data AgentError : Type 0 where
  bad_path : PathError → AgentError
  bad_patch : PatchError → AgentError
  bad_frame : FrameError → AgentError
  bad_signature : SigError → AgentError
  os_error escaping_target disconnected bad_json wrong_answer changed_file endless : AgentError
  unexpected_tag : ℕ → AgentError

abbrev pub Act : Type 0 → Type 0 → Type 0
Act S A = Action AgentError S A

-- A call of the file system.
abbrev pub call : {S : Type 0} → (S → Bool × S) → Act S (Unit {0})
call op s = (ensure (op s).0 os_error, (op s).1)

-- `let _ = call`
abbrev pub ignoring : {S : Type 0} → (S → Bool × S) → Act S (Unit {0})
ignoring op s = (ok tt, (op s).1)
