-- ===== src/Agent/Confined.antt =====
-- src/agent.rs: where resolved paths lie, and what names and exclusions are.
use cargo_remote.Prelude.{
  ◌≡◌, refl, sym, ap, ◌∙◌, List, [], ◌∷◌, ◌++◌, Text, codes, Bool, true, false, not, ◌&&◌, ok, ◌==◌,
  is_empty, text_eq, contains_char, All, All-append, append_assoc, append-nil, Bool-cases, inl, inr,
  ok-injective, err-ne-ok, or_false,
}
use cargo_remote.Agent.Paths.{
  Component, root_dir, cur_dir, parent_dir, normal, split_slash, piece, pieces, components_of,
  components, push_components, resolve_under,
}

-- A name that stands for one entry of a directory: not empty, without `/`, not `.` or `..`.
unfoldable pub is_name : Text → Bool
is_name w =
    not (is_empty w)
    && (not (contains_char b'/' w) && (not (text_eq w (codes ".")) && not (text_eq w (codes ".."))))

abbrev pub IsName : Text → Type 0
IsName w = is_name w ≡ true

abbrev pub NoSlash : Text → Type 0
NoSlash w = contains_char b'/' w ≡ false

-- A component that is a name, if it is a normal one.
unfoldable IsProper : Component → Type 0
IsProper (normal w) = IsName w
IsProper _ = Unit {0}

pub split_slash-NoSlash : (s : Text) → NoSlash (split_slash s).0 × All NoSlash (split_slash s).1
unfolding split_slash
split_slash-NoSlash [] = (refl, tt)
split_slash-NoSlash (c ∷ s) = elim (Bool-cases (c == b'/')) [
  | inl e ↦ rw e (refl, split_slash-NoSlash s)
  | inr e ↦ rw e (rw e ((split_slash-NoSlash s).0), (split_slash-NoSlash s).1)
]

piece-IsProper : (w : Text) → NoSlash w → All IsProper (piece w)
unfolding piece is_name IsProper
piece-IsProper [] h = tt
piece-IsProper (c ∷ w) h = elim (Bool-cases (text_eq (c ∷ w) (codes "."))) [
  | inl e ↦ rw e tt
  | inr e ↦ elim (Bool-cases (text_eq (c ∷ w) (codes ".."))) [
    | inl d ↦ rw (e, d) (tt, tt)
    | inr d ↦ rw (e, d) (rw (h, e, d), tt)
  ]
]

pieces-IsProper : (ws : List Text) → All NoSlash ws → All IsProper (pieces ws)
unfolding pieces
pieces-IsProper [] h = tt
pieces-IsProper (w ∷ ws) (p, q) =
    All-append IsProper (piece w) (pieces ws) (piece-IsProper w p) (pieces-IsProper ws q)

components_of-IsProper :
    (w : Text) (ws : List Text) → NoSlash w → All NoSlash ws → All IsProper (components_of w ws)
unfolding components_of IsProper
components_of-IsProper w ws p q = elim (Bool-cases (is_empty w)) [
  | inl e ↦ rw e (tt, pieces-IsProper ws q)
  | inr e ↦ elim (Bool-cases (text_eq w (codes "."))) [
    | inl d ↦ rw (e, d) (tt, pieces-IsProper ws q)
    | inr d ↦ rw (e, d) (pieces-IsProper (w ∷ ws) (p, q))
  ]
]

components-IsProper : (path : Text) → All IsProper (components path)
unfolding components
components-IsProper [] = tt
components-IsProper (c ∷ s) =
    let (p, q) = split_slash-NoSlash (c ∷ s) in
    components_of-IsProper (split_slash (c ∷ s)).0 (split_slash (c ∷ s)).1 p q

-- A path below `root`: some names, one below the other.
unfoldable pub IsUnder : List Text → List Text → Type 0
IsUnder root path = (below : List Text) × (path ≡ root ++ below) × All IsName below

push-IsUnder :
    (cs : List Component) (out path : List Text)
    → All IsProper cs
    → push_components out cs ≡ ok path
    → IsUnder out path
unfolding push_components IsUnder IsProper
push-IsUnder [] out path a h = ([], sym (ok-injective h) ∙ sym (append-nil out), tt)
push-IsUnder (normal c ∷ cs) out path (n, a) h =
    let (below, e, names) = push-IsUnder cs (out ++ c ∷ []) path a h in
    (c ∷ below, e ∙ append_assoc out (c ∷ []) below, (n, names))
push-IsUnder (cur_dir ∷ cs) out path (n, a) h = push-IsUnder cs out path a h
push-IsUnder (root_dir ∷ cs) out path (n, a) h = absurd (err-ne-ok h)
push-IsUnder (parent_dir ∷ cs) out path (n, a) h = absurd (err-ne-ok h)

-- Whatever text the peer sends: if `resolve_under` accepts it, the path lies under the root, and
-- what it adds to the root are names, none of which is empty, `.` or `..` or has a `/` in it.
pub resolve_under-IsUnder :
    (root : List Text) (rel : Text) (path : List Text)
    → resolve_under root rel ≡ ok path
    → IsUnder root path
unfolding resolve_under
resolve_under-IsUnder root rel path h =
    push-IsUnder (components rel) root path (components-IsProper rel) h

-- Names put together with `/`, the form in which `walk` gives paths.
unfoldable pub join_path : Text → List Text → Text
join_path w [] = w
join_path w (v ∷ ws) = w ++ b'/' ∷ join_path v ws

split_slash-append :
    (w rest : Text)
    → NoSlash w
    → split_slash (w ++ rest) ≡ (w ++ (split_slash rest).0, (split_slash rest).1)
unfolding split_slash
split_slash-append [] rest h = refl
split_slash-append (c ∷ w) rest h =
    let (other, more) = or_false (c == b'/') (contains_char b'/' w) h in
    rw (other, split_slash-append w rest more)

split_slash-join :
    (w : Text) (ws : List Text)
    → NoSlash w
    → All NoSlash ws
    → split_slash (join_path w ws) ≡ (w, ws)
unfolding split_slash join_path
split_slash-join w [] h a =
    ap split_slash (sym (append-nil w))
    ∙ split_slash-append w [] h
    ∙ ap (λ s. (s, [])) (append-nil w)
split_slash-join w (v ∷ ws) h (k, a) =
    split_slash-append w (b'/' ∷ join_path v ws) h
    ∙ rw (split_slash-join v ws k a) (ap (λ s. (s, v ∷ ws)) (append-nil w))

pub name_facts :
    (w : Text)
    → IsName w
    → (is_empty w ≡ false)
      × NoSlash w
      × (text_eq w (codes ".") ≡ false)
      × (text_eq w (codes "..") ≡ false)
unfolding is_name
name_facts w h =
    go (is_empty w) (contains_char b'/' w) (text_eq w (codes ".")) (text_eq w (codes "..")) h
  where
    go :
        (p q r s : Bool)
        → (not p && (not q && (not r && not s))) ≡ true
        → (p ≡ false) × (q ≡ false) × (r ≡ false) × (s ≡ false)
    go false false false false h = (refl, refl, refl, refl)
    go true q r s h = cc
    go false true r s h = cc
    go false false true s h = cc
    go false false false true h = cc

All-NoSlash : (ws : List Text) → All IsName ws → All NoSlash ws
All-NoSlash [] h = tt
All-NoSlash (w ∷ ws) (n, h) = ((name_facts w n).1, All-NoSlash ws h)

piece-name : (w : Text) → IsName w → piece w ≡ normal w ∷ []
unfolding piece
piece-name w h =
    let (nonempty, _, no_dot, no_dots) = name_facts w h in rw (nonempty, no_dot, no_dots)

push_names :
    (ws : List Text) (out : List Text)
    → All IsName ws
    → push_components out (pieces ws) ≡ ok (out ++ ws)
unfolding push_components pieces
push_names [] out h = ap ok (sym (append-nil out))
push_names (w ∷ ws) out (n, h) =
    rw (piece-name w n) (push_names ws (out ++ w ∷ []) h ∙ ap ok (append_assoc out (w ∷ []) ws))

join_path_nonempty :
    (w : Text) (ws : List Text) → is_empty w ≡ false → is_empty (join_path w ws) ≡ false
unfolding join_path
join_path_nonempty [] ws h = cc
join_path_nonempty (c ∷ w) [] h = refl
join_path_nonempty (c ∷ w) (v ∷ ws) h = refl

components-join :
    (w : Text) (ws : List Text)
    → IsName w
    → All IsName ws
    → components (join_path w ws) ≡ pieces (w ∷ ws)
unfolding components components_of
components-join w ws n h =
    let (nonempty, plain, no_dot, _) = name_facts w n in
    rw (
      join_path_nonempty w ws nonempty,
      split_slash-join w ws plain (All-NoSlash ws h),
      nonempty,
      no_dot,
    )

-- A path that is put together from names, as `walk` does it, is accepted by `resolve_under` and
-- stands for these names below the root.
resolve_under-join_path :
    (root : List Text) (w : Text) (ws : List Text)
    → All IsName (w ∷ ws)
    → resolve_under root (join_path w ws) ≡ ok (root ++ w ∷ ws)
unfolding resolve_under
resolve_under-join_path root w ws (n, h) =
    rw (components-join w ws n h) (push_names (w ∷ ws) root (n, h))
