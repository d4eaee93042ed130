-- ===== src/Agent/Kept.antt =====
-- src/agent.rs: which paths the agent hands to the file system. `I` is any property of the disk
-- that calls at paths under the root keep.
use cargo_remote.Prelude.{
  ℕ, ◌≡◌, refl, sym, ap, ◌∙◌, List, [], ◌∷◌, ◌++◌, Text, codes, Bool, true, false, ◌&&◌, Result, ok,
  err, if◌then◌else◌, ◌==◌, All, All-append, append_assoc, arith, contains_char, text_eq, or_false,
}
use cargo_remote.Agent.Confined.{IsName, is_name, name_facts, IsUnder, NoSlash}
use cargo_remote.Agent.Disk.{FilePath, Call, Disk, AgentError, Act, go_on, ◌>>=◌, lift}
use cargo_remote.Agent.Storing.{tmp_name}
use cargo_remote.Agent.Acts.{Keeps, bind-Keeps}
use cargo_remote.Agent.Server.{map_err, for_each}

pub map_err_ok :
    {E A : Type 0} {a : A} (f : E → AgentError) (r : Result E A) → map_err f r ≡ ok a → r ≡ ok a
unfolding map_err
map_err_ok f (ok b) h = cc
map_err_ok f (err e) h = cc

NoSlash-append : (s t : Text) → NoSlash s → NoSlash t → NoSlash (s ++ t)
NoSlash-append [] t hs ht = ht
NoSlash-append (c ∷ s) t hs ht =
    let (other, more) = or_false (c == b'/') (contains_char b'/' s) hs in
    rw (other, NoSlash-append s t more ht)

ground_and : (p : Bool) → (p && false) ≡ false
ground_and p = ground arith

not_nil : (s : Text) (c : ℕ) (t : Text) → text_eq (s ++ c ∷ t) [] ≡ false
not_nil [] c t = refl
not_nil (d ∷ s) c t = refl

-- The staging file of a name is a name.
pub tmp_name-IsName : (name tag : Text) → IsName name → NoSlash tag → IsName (tmp_name name tag)
unfolding tmp_name is_name
tmp_name-IsName [] tag n t = cc
tmp_name-IsName (c ∷ name) tag n t =
    let (_, plain, _, _) = name_facts (c ∷ name) n in
    rw
      (
        NoSlash-append (c ∷ name) (codes ".tmp-" ++ tag) plain t,
        not_nil name b'.' (codes "tmp-" ++ tag),
        ground_and (c == b'.'),
      )
      refl

-- Some names, one at least, end in a last one.
last-IsName :
    (w : Text) (ws : List Text)
    → All IsName (w ∷ ws)
    → (init : List Text) × (name : Text) × (w ∷ ws ≡ init ++ name ∷ [])
      × All IsName init
      × IsName name
last-IsName w [] (n, _) = ([], w, refl, tt, n)
last-IsName w (v ∷ ws) (n, more) =
    let (init, name, e, a, l) = last-IsName v ws more in
    (w ∷ init, name, ap (λ vs. w ∷ vs) e, (n, a), l)

-- Two names with a root before them: the last one stands alone.
pub IsUnder-last :
    (root : FilePath) (w : Text) (ws : List Text)
    → All IsName (w ∷ ws)
    → (dir : FilePath) × (name : Text) × (root ++ w ∷ ws ≡ dir ++ name ∷ [])
      × IsUnder root dir
      × IsName name
unfolding IsUnder
IsUnder-last root w ws a =
    let (init, name, e, names, last) = last-IsName w ws a in
    (
      root ++ init,
      name,
      ap (λ vs. root ++ vs) e ∙ sym (append_assoc root init (name ∷ [])),
      (init, refl, names),
      last,
    )

pub IsUnder-name :
    (root dir : FilePath) (name : Text)
    → IsUnder root dir
    → IsName name
    → IsUnder root (dir ++ name ∷ [])
unfolding IsUnder
IsUnder-name root dir name (below, e, a) n = (
  below ++ name ∷ [],
  ap (λ p. p ++ name ∷ []) e ∙ append_assoc root below (name ∷ []),
  All-append IsName below (name ∷ []) a (n, tt),
)

-- Every call that changes the disk keeps `I` at paths under the root.
pub record KeptUnder (D : Disk) (root : FilePath) (I : D.State → Type 0) : Type 0 where
  pub by_perform :
      (c : Call) (p : FilePath) (s : D.State) → IsUnder root p → I s → I (D.perform c p s).1
  pub by_rename :
      (from to : FilePath) (s : D.State)
      → IsUnder root from
      → IsUnder root to
      → I s
      → I (D.rename from to s).1
  pub by_dirs : (p : FilePath) (s : D.State) → IsUnder root p → I s → I (D.create_dir_all p s).1

module _ {S : Type 0} (I : S → Type 0) where
  pub lift-Keeps :
      {A B : Type 0} (r : Result AgentError A) (k : A → Act S B)
      → ((a : A) → r ≡ ok a → Keeps I (k a))
      → Keeps I (lift r >>= k)
  unfolding go_on
  lift-Keeps (ok a) k h s i = h a refl s i
  lift-Keeps (err e) k h s i = i

  pub for_each-Keeps :
      {A : Type 0} (f : A → Act S (Unit {0})) (xs : List A)
      → ((x : A) → Keeps I (f x))
      → Keeps I (for_each f xs)
  unfolding for_each
  for_each-Keeps f [] h = λ s i. i
  for_each-Keeps f (x ∷ xs) h = bind-Keeps I (f x) _ (h x) λ _. for_each-Keeps f xs h

  pub if-Keeps :
      {A : Type 0} (b : Bool) (m n : Act S A)
      → (b ≡ true → Keeps I m)
      → (b ≡ false → Keeps I n)
      → Keeps I (if b then m else n)
  if-Keeps true m n hm hn = hm refl
  if-Keeps false m n hm hn = hn refl
