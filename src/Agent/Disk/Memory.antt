-- ===== src/Agent/Disk/Memory.antt =====
-- A file system in memory that meets the laws of `Disk`, for concrete runs: a function from
-- paths to nodes, in which the writes of files can be made to fail.
use cargo_remote.Prelude.{
  ℕ, ◌≡◌, ◌≢◌, ◌⊎◌, refl, inl, inr, [], ◌∷◌, ◌++◌, codes, Bool, true, false, ◌&&◌, arith,
  if◌then◌else◌, text_eq, text_eq→eq, text_eq_refl, Bool-cases,
}
use cargo_remote.Agent.Disk.{
  FilePath, Node, absent, dir_node, other_node, link_node, file_node, is_prefix, Call, create_new,
  write_all, set_permissions, set_times, remove_file, remove_dir, symlink, effect, ReadResult,
  contents, not_found, read_failed, Disk, Made, IsLawful,
}

unfoldable pub path_eq : FilePath → FilePath → Bool
path_eq [] [] = true
path_eq [] (v ∷ p) = false
path_eq (w ∷ q) [] = false
path_eq (w ∷ q) (v ∷ p) = text_eq w v && path_eq q p

path_eq→eq : (q p : FilePath) → path_eq q p ≡ true → q ≡ p
unfolding path_eq
path_eq→eq [] [] h = refl
path_eq→eq [] (v ∷ p) h = cc
path_eq→eq (w ∷ q) [] h = cc
path_eq→eq (w ∷ q) (v ∷ p) h = ground (arith, text_eq→eq w v, path_eq→eq q p)

path_eq_refl : (p : FilePath) → path_eq p p ≡ true
unfolding path_eq
path_eq_refl [] = refl
path_eq_refl (w ∷ p) = rw (text_eq_refl w) (path_eq_refl p)

path_eq_ne : (q p : FilePath) → q ≢ p → path_eq q p ≡ false
path_eq_ne q p h = ground (arith, path_eq→eq q p)

pub record Memory : Type 0 where
  pub node : FilePath → Node
  pub clock : ℕ
  pub full : Bool

abbrev put_node : (FilePath → Node) → FilePath → Node → FilePath → Node
put_node f p n q = if path_eq q p then n else f q

unfoldable pub is_file : Node → Bool
is_file (file_node f) = true
is_file _ = false

unfoldable pub is_absent : Node → Bool
is_absent absent = true
is_absent _ = false

-- Which calls work on which nodes; on a full device no bytes are written.
unfoldable pub allowed : Bool → Call → Node → Bool
unfolding is_file is_absent
allowed full create_new n = is_absent n
allowed true (write_all bytes) n = false
allowed false (write_all bytes) n = is_file n
allowed full (set_permissions m) n = is_file n
allowed full (set_times t) n = is_file n
allowed full remove_file dir_node = false
allowed full remove_file absent = false
allowed full remove_file _ = true
allowed full remove_dir dir_node = true
allowed full remove_dir _ = false
allowed full (symlink target) n = is_absent n

unfoldable pub make_dir : Node → Node
make_dir absent = dir_node
make_dir n = n

unfoldable pub read_node : Node → ReadResult
read_node absent = not_found
read_node (file_node f) = contents f.content
read_node _ = read_failed

abbrev perform_in : Call → FilePath → Memory → Bool × Memory
perform_in c p s =
    if allowed s.full c (s.node p)
    then (true, record s { node = put_node s.node p (effect 0o644 s.clock c (s.node p)) })
    else (false, s)

abbrev rename_in : FilePath → FilePath → Memory → Bool × Memory
rename_in from to s =
    if is_file (s.node from)
    then (true, record s { node = put_node (put_node s.node from absent) to (s.node from) })
    else (false, s)

abbrev create_dir_all_in : FilePath → Memory → Bool × Memory
create_dir_all_in dir s =
    (true, record s { node = λ q. if is_prefix q dir then make_dir (s.node q) else s.node q })

abbrev pub memory : Disk
memory = record {
  State = Memory;
  node_at = λ s p. s.node p;
  now = λ s. s.clock;
  new_mode = λ s. 0o644;
  tmp_tag = λ s. codes "7-0-1f";
  perform = perform_in;
  rename = rename_in;
  create_dir_all = create_dir_all_in;
  read = λ s p. read_node (s.node p);
  read_no_follow = λ s p. read_node (s.node p);
}

make_dir-Made : (n : Node) → (make_dir n ≡ n) ⊎ (n ≡ absent) × (make_dir n ≡ dir_node)
unfolding make_dir
make_dir-Made absent = inr (refl, refl)
make_dir-Made dir_node = inl refl
make_dir-Made other_node = inl refl
make_dir-Made (link_node t) = inl refl
make_dir-Made (file_node f) = inl refl

create_dir_all-Made :
    (s : Memory) (dir q : FilePath) → Made memory s (create_dir_all_in dir s).1 dir q
create_dir_all-Made s dir q = elim (Bool-cases (is_prefix q dir)) [
  | inr e ↦ inl (rw e refl)
  | inl e ↦ elim (make_dir-Made (s.node q)) [
    | inl same ↦ inl (rw e same)
    | inr (gone, made) ↦ inr (e, gone, rw e made)
  ]
]

pub memory-IsLawful : IsLawful memory
memory-IsLawful = record {
  perform_done = λ s c dir name d ok. ground (arith, path_eq_refl (dir ++ name ∷ []));
  perform_others = λ s c dir name q d ne. ground (arith, path_eq_ne q (dir ++ name ∷ []) ne);
  perform_clock = λ s c p. ground arith;
  rename_done = λ s dir from to d ok. ground (arith, path_eq_refl (dir ++ to ∷ []));
  rename_others = λ s dir from to q d nf nt.
      ground (arith, path_eq_ne q (dir ++ from ∷ []) nf, path_eq_ne q (dir ++ to ∷ []) nt);
  rename_failed = λ s dir from to q d no. ground arith;
  create_dir_all_made = λ s dir q d. create_dir_all-Made s dir q;
  create_dir_all_clock = λ s dir. omega arith;
}
