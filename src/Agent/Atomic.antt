-- ===== src/Agent/Atomic.antt =====
-- src/agent.rs: what `write_file_atomic` does to a lawful file system, on every outcome.
use cargo_remote.Prelude.{
  ℕ, ◌^◌, ◌%◌, ◌≤◌, ◌≡◌, ◌≢◌, ◌⊎◌, inl, inr, refl, sym, ap, ◌∙◌, subst, [], ◌∷◌, ◌++◌, Text, codes,
  Bytes, Bool, true, false, some, Result, ok, err, ensure, arith, length, length-append,
}
use cargo_remote.Agent.Disk.{
  FilePath, Node, file_node, is_link, is_prefix, Call, create_new, write_all, set_permissions,
  set_times, remove_file, effect, Disk, Direct, Made, IsLawful, AgentError, go_on, call,
}
use cargo_remote.Agent.Storing.{
  ℤ, clamp_time, split_last, tmp_name, fill_file, stage_file, clean_tmp, replace_file, write_at,
  write_file_atomic,
}
use cargo_remote.Agent.Acts.{Keeps, bind-Keeps, go_on_ok, call_ok}

longer_no_prefix : (dir : FilePath) (name : Text) → is_prefix (dir ++ name ∷ []) dir ≡ false
unfolding is_prefix
longer_no_prefix [] name = refl
longer_no_prefix (w ∷ dir) name = ground (arith, longer_no_prefix dir name)

-- A directory on the way to a file is not the file.
above_ne : (q dir : FilePath) (name : Text) → is_prefix q dir ≡ true → q ≢ dir ++ name ∷ []
above_ne q dir name h e =
    let no : is_prefix q dir ≡ false = ap (λ p. is_prefix p dir) e ∙ longer_no_prefix dir name in cc

last_injective :
    (dir : FilePath) (a b : Text) → ◌≡◌ {A = FilePath} (dir ++ a ∷ []) (dir ++ b ∷ []) → a ≡ b
last_injective [] a b h = cc
last_injective (w ∷ dir) a b h = last_injective dir a b cc

pub split_last-append :
    (dir : FilePath) (name : Text) → split_last (dir ++ name ∷ []) ≡ some (dir, name)
unfolding split_last
split_last-append [] name = refl
split_last-append (w ∷ []) name = refl
split_last-append (w ∷ v ∷ dir) name = rw (split_last-append (v ∷ dir) name) refl

-- The staging file is another one.
tmp_name_ne : (name tag : Text) → tmp_name name tag ≢ name
unfolding tmp_name
tmp_name_ne name tag h =
    let n : length (tmp_name name tag) ≡ length name = ap (λ t. length t) h in
    omega (
      arith,
      n,
      length-append (codes ".") (name ++ (codes ".tmp-" ++ tag)),
      length-append name (codes ".tmp-" ++ tag),
      length-append (codes ".tmp-") tag,
    )

-- The call succeeded and the file has the given bytes, the mode without its special bits, and the
-- time cut to a clock reading after the start; or it failed and the file is what it was.
abbrev pub WholeOrUntouched :
    (D : Disk)
    → D.State
    → FilePath
    → Bytes
    → ℕ
    → ℤ
    → Result AgentError (Unit {0}) × D.State
    → Type 0
WholeOrUntouched D start dest content mode mtime r =
    ((r.0 ≡ ok tt)
      × ((t : ℕ) × ((D.now start ≤ t)
            × (D.node_at r.1 dest
                ≡ file_node (record {
                  content = content;
                  mode = mode % 2 ^ 9;
                  mtime = clamp_time mtime t;
                })))))
    ⊎ ((e : AgentError) × ((r.0 ≡ err e) × (D.node_at r.1 dest ≡ D.node_at start dest)))

module _ (D : Disk) (L : IsLawful D) (dir : FilePath) (start : D.State)
    (direct : Direct D start dir) where
  -- Nothing has changed but the staging file.
  abbrev OnlyTmp : Text → D.State → Type 0
  OnlyTmp tmp s = (q : FilePath) → q ≢ dir ++ tmp ∷ [] → D.node_at s q ≡ D.node_at start q

  still-Direct : (tmp : Text) (s : D.State) → OnlyTmp tmp s → Direct D s dir
  still-Direct tmp s only q h = rw (only q (above_ne q dir tmp h)) (direct q h)

  perform-OnlyTmp :
      (tmp : Text) (c : Call) → Keeps (OnlyTmp tmp) (call (D.perform c (dir ++ tmp ∷ [])))
  perform-OnlyTmp tmp c s only q ne =
      L.perform_others s c dir tmp q (still-Direct tmp s only) ne ∙ only q ne

  fill_file-OnlyTmp :
      (tmp : Text) (content : Bytes) (mode : ℕ) (mtime : ℤ)
      → Keeps (OnlyTmp tmp) (fill_file D (dir ++ tmp ∷ []) content mode mtime)
  unfolding fill_file
  fill_file-OnlyTmp tmp content mode mtime =
      bind-Keeps (OnlyTmp tmp) _ _ (perform-OnlyTmp tmp (write_all content)) λ _.
        bind-Keeps (OnlyTmp tmp) _ _ (perform-OnlyTmp tmp (set_permissions (mode % 2 ^ 9)))
          λ _ s i. perform-OnlyTmp tmp (set_times (clamp_time mtime (D.now s))) s i

  stage_file-OnlyTmp :
      (tmp : Text) (content : Bytes) (mode : ℕ) (mtime : ℤ)
      → Keeps (OnlyTmp tmp) (stage_file D (dir ++ tmp ∷ []) content mode mtime)
  unfolding stage_file
  stage_file-OnlyTmp tmp content mode mtime =
      bind-Keeps (OnlyTmp tmp) _ _ (perform-OnlyTmp tmp create_new)
        λ _. fill_file-OnlyTmp tmp content mode mtime

  -- A call on the staging file that worked.
  done :
      (tmp : Text) (c : Call) (s : D.State) (u : Unit {0}) (n : Node)
      → OnlyTmp tmp s
      → D.node_at s (dir ++ tmp ∷ []) ≡ n
      → (call (D.perform c (dir ++ tmp ∷ [])) s).0 ≡ ok u
      → D.node_at (D.perform c (dir ++ tmp ∷ []) s).1 (dir ++ tmp ∷ [])
        ≡ effect (D.new_mode s) (D.now s) c n
  done tmp c s u n only e h =
      L.perform_done s c dir tmp (still-Direct tmp s only) (call_ok (D.perform c _) s u h)
      ∙ ap (effect (D.new_mode s) (D.now s) c) e

  -- The staging file, finished at some time `t`.
  abbrev IsStaged : Text → Bytes → ℕ → ℤ → D.State → Type 0
  IsStaged tmp content mode mtime s =
      (t : ℕ) × (D.now start ≤ t)
      × (D.node_at s (dir ++ tmp ∷ [])
          ≡ file_node
              (record { content = content; mode = mode % 2 ^ 9; mtime = clamp_time mtime t }))

  stage_file-IsStaged :
      (tmp : Text) (content : Bytes) (mode : ℕ) (mtime : ℤ) (s : D.State)
      → D.now start ≤ D.now s
      → OnlyTmp tmp s
      → (stage_file D (dir ++ tmp ∷ []) content mode mtime s).0 ≡ ok tt
      → IsStaged tmp content mode mtime (stage_file D (dir ++ tmp ∷ []) content mode mtime s).1
  unfolding stage_file fill_file effect
  stage_file-IsStaged tmp content mode mtime s later only h =
      let p = dir ++ tmp ∷ [] in
      let (u0, (r0, e0)) = go_on_ok (call (D.perform create_new p) s).0 _ _ h in
      let s1 = (D.perform create_new p s).1 in
      let only1 = perform-OnlyTmp tmp create_new s only in
      let n1 = done tmp create_new s u0 _ only refl r0 in
      let h1 : (fill_file D p content mode mtime s1).0 ≡ ok tt = sym (ap (λ r. r.0) e0) ∙ h in
      let (u1, (r1, e1)) = go_on_ok (call (D.perform (write_all content) p) s1).0 _ _ h1 in
      let s2 = (D.perform (write_all content) p s1).1 in
      let only2 = perform-OnlyTmp tmp (write_all content) s1 only1 in
      let n2 = done tmp (write_all content) s1 u1 _ only1 n1 r1 in
      let h2 = sym (ap (λ r. r.0) e1) ∙ h1 in
      let (u2, (r2, e2)) =
        go_on_ok (call (D.perform (set_permissions (mode % 2 ^ 9)) p) s2).0 _ _ h2 in
      let s3 = (D.perform (set_permissions (mode % 2 ^ 9)) p s2).1 in
      let only3 = perform-OnlyTmp tmp (set_permissions (mode % 2 ^ 9)) s2 only2 in
      let n3 = done tmp (set_permissions (mode % 2 ^ 9)) s2 u2 _ only2 n2 r2 in
      let h3 = sym (ap (λ r. r.0) e2) ∙ h2 in
      let n4 = done tmp (set_times (clamp_time mtime (D.now s3))) s3 tt _ only3 n3 h3 in
      let steps : D.now s ≤ D.now s3 = omega (
        arith,
        L.perform_clock s create_new p,
        L.perform_clock s1 (write_all content) p,
        L.perform_clock s2 (set_permissions (mode % 2 ^ 9)) p,
      ) in
      subst (IsStaged tmp content mode mtime) (sym (ap (λ r. r.1) (e0 ∙ (e1 ∙ e2))))
        (D.now s3, omega arith, n4)

  -- Beside the file, only the staging file may have changed.
  record Replacement (name tmp : Text) (content : Bytes) (mode : ℕ) (mtime : ℤ)
      (r : Result AgentError (Unit {0}) × D.State) : Type 0 where
    outcome : WholeOrUntouched D start (dir ++ name ∷ []) content mode mtime r
    others :
        (q : FilePath)
        → q ≢ dir ++ name ∷ []
        → q ≢ dir ++ tmp ∷ []
        → D.node_at r.1 q ≡ D.node_at start q

  module _ (name tmp : Text) (content : Bytes) (mode : ℕ) (mtime : ℤ) (ne : tmp ≢ name) where
    abbrev Good : Result AgentError (Unit {0}) × D.State → Type 0
    Good = Replacement name tmp content mode mtime

    dest_ne : ◌≢◌ {A = FilePath} (dir ++ name ∷ []) (dir ++ tmp ∷ [])
    dest_ne e = ne (sym (last_injective dir name tmp e))

    cleaned :
        (e : AgentError) (s : D.State)
        → OnlyTmp tmp s
        → Good (clean_tmp D (dir ++ tmp ∷ []) (err e, s))
    unfolding clean_tmp
    cleaned e s only =
        let gone = perform-OnlyTmp tmp remove_file s only in
        record {
          outcome = inr (e, (refl, gone (dir ++ name ∷ []) dest_ne));
          others = λ q _ n. gone q n;
        }

    renamed :
        (b : Bool) (s : D.State)
        → OnlyTmp tmp s
        → IsStaged tmp content mode mtime s
        → (D.rename (dir ++ tmp ∷ []) (dir ++ name ∷ []) s).0 ≡ b
        → Good (
            clean_tmp D
              (dir ++ tmp ∷ [])
              (ensure b AgentError.os_error, (D.rename (dir ++ tmp ∷ []) (dir ++ name ∷ []) s).1))
    unfolding clean_tmp
    renamed true s only (t, later, e) h =
        let d = still-Direct tmp s only in
        record {
          outcome = inl (refl, (t, (later, L.rename_done s dir tmp name d h ∙ e)));
          others = λ q n m. L.rename_others s dir tmp name q d m n ∙ only q m;
        }
    renamed false s only staged h =
        cleaned AgentError.os_error _
          λ q n. L.rename_failed s dir tmp name q (still-Direct tmp s only) h ∙ only q n

    staged-Replacement :
        (r : Result AgentError (Unit {0})) (s : D.State)
        → OnlyTmp tmp s
        → (r ≡ ok tt → IsStaged tmp content mode mtime s)
        → Good (
            clean_tmp D
              (dir ++ tmp ∷ [])
              (go_on r s (λ _. call (D.rename (dir ++ tmp ∷ []) (dir ++ name ∷ [])))))
    unfolding go_on
    staged-Replacement (err e) s only staged = cleaned e s only
    staged-Replacement (ok u) s only staged = renamed _ s only (staged refl) refl

    replace_file-Replacement :
        Good (replace_file D (dir ++ tmp ∷ []) (dir ++ name ∷ []) content mode mtime start)
    unfolding replace_file
    replace_file-Replacement =
        staged-Replacement (stage_file D (dir ++ tmp ∷ []) content mode mtime start).0 _
          (stage_file-OnlyTmp tmp content mode mtime start λ q _. refl)
          (stage_file-IsStaged tmp content mode mtime start (omega arith) λ q _. refl)

-- Places other than the file and its possible staging files: only missing directories above the
-- file may have been made.
abbrev pub OthersMade : (D : Disk) → D.State → D.State → FilePath → Text → Type 0
OthersMade D start s dir name =
    (q : FilePath)
    → q ≢ dir ++ name ∷ []
    → ((tag : Text) → q ≢ dir ++ tmp_name name tag ∷ [])
    → Made D start s dir q

module _ (D : Disk) (L : IsLawful D) (dir : FilePath) (start : D.State)
    (direct : Direct D start dir) where
  directed : (s : D.State) → ((q : FilePath) → Made D start s dir q) → Direct D s dir
  unfolding is_link
  directed s made q h = elim (made q) [
    | inl same ↦ rw same (direct q h)
    | inr (_, _, new) ↦ rw new refl
  ]

  file_not-Made :
      (s : D.State) (name : Text)
      → Made D start s dir (dir ++ name ∷ [])
      → D.node_at s (dir ++ name ∷ []) ≡ D.node_at start (dir ++ name ∷ [])
  file_not-Made s name (inl same) = same
  file_not-Made s name (inr (above, _, _)) = absurd (above_ne _ dir name above refl)

  Made-on :
      (s s' : D.State) (q : FilePath)
      → D.node_at s' q ≡ D.node_at s q
      → Made D start s dir q
      → Made D start s' dir q
  Made-on s s' q e (inl same) = inl (e ∙ same)
  Made-on s s' q e (inr (above, gone, new)) = inr (above, gone, e ∙ new)

  module _ (name : Text) (content : Bytes) (mode : ℕ) (mtime : ℤ) where
    untouched_before :
        (s : D.State) (r : Result AgentError (Unit {0}) × D.State)
        → D.now start ≤ D.now s
        → Made D start s dir (dir ++ name ∷ [])
        → WholeOrUntouched D s (dir ++ name ∷ []) content mode mtime r
        → WholeOrUntouched D start (dir ++ name ∷ []) content mode mtime r
    untouched_before s r later made (inl (o, (t, (l, e)))) = inl (o, (t, (omega arith, e)))
    untouched_before s r later made (inr (e, (o, same))) =
        inr (e, (o, same ∙ file_not-Made s name made))

    with_dirs :
        (b : Bool) (s : D.State)
        → ((q : FilePath) → Made D start s dir q)
        → D.now start ≤ D.now s
        → let r = go_on (ensure b AgentError.os_error) s λ _ s.
          replace_file D
            (dir ++ tmp_name name (D.tmp_tag s) ∷ [])
            (dir ++ name ∷ [])
            content
            mode
            mtime
            s in
          WholeOrUntouched D start (dir ++ name ∷ []) content mode mtime r
          × OthersMade D start r.1 dir name
    unfolding go_on
    with_dirs false s made later =
        (inr (AgentError.os_error, (refl, file_not-Made s name (made _))), λ q _ _. made q)
    with_dirs true s made later =
        let tmp = tmp_name name (D.tmp_tag s) in
        let good =
          replace_file-Replacement D L dir s (directed s made) name tmp content mode mtime
            (tmp_name_ne name (D.tmp_tag s)) in
        (
          untouched_before s _ later (made _) good.outcome,
          λ q n m. Made-on s _ q (good.others q n (m (D.tmp_tag s))) (made q),
        )

-- On a lawful file system, with no link on the way to the file and whichever of the calls fails,
-- `write_file_atomic` either succeeds, and then the file has exactly the given bytes, the mode
-- without its special bits and the time cut to the clock's, or it fails, and then what lay there
-- before is untouched. Beside the file and a staging file next to it, nothing changes but that
-- missing directories above the file are made.
pub write_file_atomic-WholeOrUntouched :
    (D : Disk)
    → IsLawful D
    → (s : D.State) (dir : FilePath) (name : Text) (content : Bytes) (mode : ℕ) (mtime : ℤ)
    → Direct D s dir
    → WholeOrUntouched D s
        (dir ++ name ∷ [])
        content
        mode
        mtime
        (write_file_atomic D (dir ++ name ∷ []) content mode mtime s)
      × OthersMade D s (write_file_atomic D (dir ++ name ∷ []) content mode mtime s).1 dir name
unfolding write_file_atomic write_at
write_file_atomic-WholeOrUntouched D L s dir name content mode mtime direct =
    let p = dir ++ name ∷ [] in
    subst
      (λ o.
        WholeOrUntouched D s p content mode mtime (write_at D o p content mode mtime s)
        × OthersMade D s (write_at D o p content mode mtime s).1 dir name)
      (sym (split_last-append dir name))
      (with_dirs D L dir s direct name content mode mtime (D.create_dir_all dir s).0 _
        (λ q. L.create_dir_all_made s dir q direct) (L.create_dir_all_clock s dir))
