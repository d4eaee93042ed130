-- ===== src/Agent/ServedUnder.antt =====
-- src/agent.rs: every call of a whole sync that changes the agent's disk is at a path under the
-- root.
use cargo_remote.Prelude.{
  ℕ, ◌%◌, ◌^◌, ◌≡◌, ◌≢◌, sym, ap, ◌∙◌, subst, List, [], ◌∷◌, ◌++◌, Text, Bytes, true, false, Result,
  ok, err, All, ◌==◌, append-nil,
}
use cargo_remote.Agent.Frames.{FrameError, write_frame, unpack_hdr}
use cargo_remote.Agent.Paths.{resolve_under}
use cargo_remote.Agent.Confined.{IsName, IsUnder, resolve_under-IsUnder, NoSlash}
use cargo_remote.Agent.Plan.{kind_dir, kind_link}
use cargo_remote.Agent.Disk.{
  FilePath, Node, absent, dir_node, other_node, link_node, file_node, Call, create_new, write_all,
  set_permissions, set_times, remove_file, remove_dir, symlink, Disk, AgentError, bad_path,
  bad_frame, call, ignoring,
}
use cargo_remote.Agent.Storing.{
  ℤ, clamp_time, tmp_name, fill_file, stage_file, clean_tmp, replace_file, write_at,
  write_file_atomic,
}
use cargo_remote.Agent.Atomic.{split_last-append}
use cargo_remote.Agent.Acts.{Keeps, bind-Keeps, go_on-Keeps}
use cargo_remote.Agent.Messages.{
  FileHdr, Json, tag_put, tag_mkdir, tag_delete, tag_sig_req, tag_plan_done,
}
use cargo_remote.Agent.Server.{
  map_err, put_content, put_link, put_file, apply_put, make_dir_under, delete_node, delete_under,
  Served, on_disk, send, answer_sig, count_put, serve_put, serve_frame, serve_loop, read_or_empty,
}
use cargo_remote.Agent.Arrives.{count_put-disk}
use cargo_remote.Agent.Kept.{
  map_err_ok, tmp_name-IsName, IsUnder-last, IsUnder-name, KeptUnder, lift-Keeps, for_each-Keeps,
  if-Keeps,
}

-- A PUT payload of a file whose path is not the root itself.
abbrev pub NamesFile : Json → FilePath → Bytes → Type 0
NamesFile json root payload =
    (hdr : FileHdr) (body : Bytes)
    → unpack_hdr json.encode_file json.decode_file payload ≡ ok (hdr, body)
    → (hdr.kind == kind_dir) ≡ false
    → (hdr.kind == kind_link) ≡ false
    → resolve_under root hdr.path ≢ ok root

-- A frame that is no PUT of the root itself.
abbrev pub IsNamed : Json → FilePath → Result FrameError (ℕ × Bytes) → Type 0
IsNamed json root (ok (t, payload)) = (t == tag_put) ≡ true → NamesFile json root payload
IsNamed json root (err e) = Unit

module _ (D : Disk) (root : FilePath) (I : D.State → Type 0) (K : KeptUnder D root I)
    (plain : (s : D.State) → NoSlash (D.tmp_tag s)) where
  clean_tmp-Kept :
      (tmp : FilePath) (r : Result AgentError (Unit {0})) (s : D.State)
      → IsUnder root tmp
      → I s
      → I (clean_tmp D tmp (r, s)).1
  unfolding clean_tmp
  clean_tmp-Kept tmp (ok u) s t i = i
  clean_tmp-Kept tmp (err e) s t i = K.by_perform remove_file tmp s t i

  at_tmp : (tmp : FilePath) (c : Call) → IsUnder root tmp → Keeps I (call (D.perform c tmp))
  at_tmp tmp c t s i = K.by_perform c tmp s t i

  fill_file-Kept :
      (tmp : FilePath) (content : Bytes) (mode : ℕ) (mtime : ℤ)
      → IsUnder root tmp
      → Keeps I (fill_file D tmp content mode mtime)
  unfolding fill_file
  fill_file-Kept tmp content mode mtime t = bind-Keeps I _ _ (at_tmp tmp (write_all content) t) λ _.
      bind-Keeps I _ _ (at_tmp tmp (set_permissions (mode % 2 ^ 9)) t)
        λ _ s. at_tmp tmp (set_times (clamp_time mtime (D.now s))) t s

  stage_file-Kept :
      (tmp : FilePath) (content : Bytes) (mode : ℕ) (mtime : ℤ)
      → IsUnder root tmp
      → Keeps I (stage_file D tmp content mode mtime)
  unfolding stage_file
  stage_file-Kept tmp content mode mtime t =
      bind-Keeps I _ _ (at_tmp tmp create_new t) λ _. fill_file-Kept tmp content mode mtime t

  replace_file-Kept :
      (tmp dest : FilePath) (content : Bytes) (mode : ℕ) (mtime : ℤ)
      → IsUnder root tmp
      → IsUnder root dest
      → Keeps I (replace_file D tmp dest content mode mtime)
  unfolding replace_file
  replace_file-Kept tmp dest content mode mtime t d s i = clean_tmp-Kept tmp _ _ t (
      bind-Keeps I (stage_file D tmp content mode mtime) (λ _. call (D.rename tmp dest))
        (stage_file-Kept tmp content mode mtime t) (λ _ s j. K.by_rename tmp dest s t d j) s i)

  write_file_atomic-Kept :
      (dir : FilePath) (name : Text) (content : Bytes) (mode : ℕ) (mtime : ℤ)
      → IsUnder root dir
      → IsName name
      → Keeps I (write_file_atomic D (dir ++ name ∷ []) content mode mtime)
  unfolding write_file_atomic write_at
  write_file_atomic-Kept dir name content mode mtime d n =
      subst (λ o. Keeps I (write_at D o (dir ++ name ∷ []) content mode mtime))
        (sym (split_last-append dir name))
        (bind-Keeps I (call (D.create_dir_all dir)) _ (λ s j. K.by_dirs dir s d j)
          λ _ s j.
            replace_file-Kept (dir ++ tmp_name name (D.tmp_tag s) ∷ []) (dir ++ name ∷ []) content
              mode mtime
              (IsUnder-name root dir _ d (tmp_name-IsName name (D.tmp_tag s) n (plain s)))
              (IsUnder-name root dir name d n) s j)

  -- A file that is not the root itself.
  write_under-Kept :
      (dest : FilePath) (content : Bytes) (mode : ℕ) (mtime : ℤ)
      → IsUnder root dest
      → dest ≢ root
      → Keeps I (write_file_atomic D dest content mode mtime)
  unfolding IsUnder
  write_under-Kept dest content mode mtime ([], e, _) ne = absurd (ne (e ∙ append-nil root))
  write_under-Kept dest content mode mtime (w ∷ ws, e, a) ne =
      let (dir, name, at, d, n) = IsUnder-last root w ws a in
      subst (λ p. Keeps I (write_file_atomic D p content mode mtime)) (sym (e ∙ at))
        (write_file_atomic-Kept dir name content mode mtime d n)

  apply_put-Kept :
      (hdr : FileHdr) (body : Bytes)
      → ((hdr.kind == kind_dir) ≡ false
          → (hdr.kind == kind_link) ≡ false
          → resolve_under root hdr.path ≢ ok root)
      → Keeps I (apply_put D root hdr body)
  unfolding apply_put put_link put_file
  apply_put-Kept hdr body named = lift-Keeps I _ _ λ dest r.
      let resolved = map_err_ok bad_path _ r in
      let under = resolve_under-IsUnder root hdr.path dest resolved in
      if-Keeps I (hdr.kind == kind_dir) _ _ (λ _ s j. K.by_dirs dest s under j)
        λ no_dir.
          if-Keeps I (hdr.kind == kind_link) _ _
            (λ _. lift-Keeps I _ _ λ _ _.
              bind-Keeps I (ignoring (D.perform remove_file dest)) _
                (λ s j. K.by_perform remove_file dest s under j)
                (λ _ s j. K.by_perform (symlink _) dest s under j))
            λ no_link s j.
              go_on-Keeps I (put_content hdr body (read_or_empty (D.read s dest))) s _
                (λ content.
                  write_under-Kept dest content hdr.mode hdr.mtime under
                    λ e. named no_dir no_link (resolved ∙ ap ok e))
                j

  delete_node-Kept :
      (path : FilePath) (node : Node) → IsUnder root path → Keeps I (delete_node D path node)
  unfolding delete_node
  delete_node-Kept path absent u = λ s i. i
  delete_node-Kept path dir_node u = λ s i. K.by_perform remove_dir path s u i
  delete_node-Kept path other_node u = λ s i. K.by_perform remove_file path s u i
  delete_node-Kept path (link_node t) u = λ s i. K.by_perform remove_file path s u i
  delete_node-Kept path (file_node f) u = λ s i. K.by_perform remove_file path s u i

  delete_under-Kept : (d : Text) → Keeps I (delete_under D root d)
  unfolding delete_under
  delete_under-Kept d = lift-Keeps I _ _ λ path r s.
      delete_node-Kept path (D.node_at s path)
        (resolve_under-IsUnder root d path (map_err_ok bad_path _ r)) s

  make_dir_under-Kept : (d : Text) → Keeps I (make_dir_under D root d)
  unfolding make_dir_under
  make_dir_under-Kept d =
      lift-Keeps I _ _
        λ path r s. K.by_dirs path s (resolve_under-IsUnder root d path (map_err_ok bad_path _ r))

  -- The same of the agent's whole state.
  abbrev DiskMeets : Served D → Type 0
  DiskMeets s = I s.disk

  send-Kept : (t : ℕ) (payload : Bytes) → Keeps DiskMeets (send D t payload)
  unfolding send
  send-Kept t payload s i =
      go_on-Keeps DiskMeets (map_err bad_frame (write_frame t payload)) s _ (λ frame s j. j) i

  module _ (J : Json) (digest : Bytes → Bytes) where
    answer_sig-Kept : (rel : Text) → Keeps DiskMeets (answer_sig D J digest root rel)
    unfolding answer_sig
    answer_sig-Kept rel = lift-Keeps DiskMeets _ _ λ path _ s. send-Kept _ _ s

    count_put-Kept : (hdr : FileHdr) (body : Bytes) → Keeps DiskMeets (count_put D hdr body)
    unfolding count_put
    count_put-Kept hdr body s i = subst I (sym (count_put-disk D hdr body s)) i

    serve_put-Kept :
        (payload : Bytes)
        → NamesFile J root payload
        → Keeps DiskMeets (serve_put D J digest root payload)
    unfolding serve_put
    serve_put-Kept payload named = lift-Keeps DiskMeets _ _ λ put r.
        bind-Keeps DiskMeets (on_disk D (apply_put D root put.0 put.1))
          (λ _. count_put D put.0 put.1)
          (λ s. apply_put-Kept put.0 put.1 (named put.0 put.1 (map_err_ok bad_frame _ r)) s.disk)
          (λ _. count_put-Kept put.0 put.1)

    serve_frame-Kept :
        (t : ℕ) (payload : Bytes)
        → ((t == tag_put) ≡ true → NamesFile J root payload)
        → Keeps DiskMeets (serve_frame D J digest root t payload)
    unfolding serve_frame
    serve_frame-Kept t payload named =
        if-Keeps DiskMeets (t == tag_mkdir) _ _
          (λ _.
            lift-Keeps DiskMeets _ _
              λ paths _. for_each-Keeps DiskMeets _ paths λ d s. make_dir_under-Kept d s.disk)
          λ _.
            if-Keeps DiskMeets (t == tag_delete) _ _
              (λ _.
                lift-Keeps DiskMeets _ _
                  λ paths _. for_each-Keeps DiskMeets _ paths λ d s. delete_under-Kept d s.disk)
              λ _.
                if-Keeps DiskMeets (t == tag_sig_req) _ _
                  (λ _.
                    lift-Keeps DiskMeets _ _
                      λ paths _. for_each-Keeps DiskMeets _ paths answer_sig-Kept)
                  λ _.
                    if-Keeps DiskMeets (t == tag_put) _ _
                      (λ put. serve_put-Kept payload (named put)) λ _ s i. i

    serve_loop-Kept :
        (frames : List (Result FrameError (ℕ × Bytes)))
        → All (IsNamed J root) frames
        → Keeps DiskMeets (serve_loop D J digest root frames)
    unfolding serve_loop
    serve_loop-Kept [] a = λ s i. i
    serve_loop-Kept (err e ∷ frames) a = λ s i. i
    serve_loop-Kept (ok (t, payload) ∷ frames) (named, a) =
        if-Keeps DiskMeets (t == tag_plan_done) _ _ (λ _ s. send-Kept _ _ s)
          λ _.
            bind-Keeps DiskMeets (serve_frame D J digest root t payload) _
              (serve_frame-Kept t payload named) λ _. serve_loop-Kept frames a

-- Whatever frames come, however many and in whichever order, as long as no PUT of a file names the
-- root itself and the staging tag has no slash: a property of the disk that is kept by the calls at
-- paths under the root is kept by the whole sync, in success and in failure. So no call that
-- changes the disk is at another path.
pub serve_loop-KeptUnder :
    (D : Disk) (root : FilePath) (I : D.State → Type 0)
    → KeptUnder D root I
    → ((s : D.State) → NoSlash (D.tmp_tag s))
    → (json : Json) (digest : Bytes → Bytes) (frames : List (Result FrameError (ℕ × Bytes)))
      (s : Served D)
    → All (IsNamed json root) frames
    → I s.disk
    → I (serve_loop D json digest root frames s).1.disk
serve_loop-KeptUnder D root I K plain json digest frames s named i =
    serve_loop-Kept D root I K plain json digest frames named s i
