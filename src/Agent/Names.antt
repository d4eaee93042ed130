-- ===== src/Agent/Names.antt =====
-- src/agent.rs: file names from the remote, and directories that are left out of a sync.
use cargo_remote.Prelude.{
  ◌≡◌, refl, sym, List, [], ◌∷◌, ◌++◌, Text, codes, Bool, true, false, not, ◌&&◌, ◌||◌, ok, any,
  is_empty, is_some, strip_prefix, text_eq, text_eq→eq, contains_char, All, arith, Bool-cases, inl,
  inr, subst, ensure_ok, append_assoc,
}
use cargo_remote.Agent.Paths.{
  split_slash, last_of, basename, refused_name, is_control_byte, checked_basename, excluded,
}
use cargo_remote.Agent.Confined.{is_name, NoSlash, split_slash-NoSlash}

strip_prefix-append :
    (p s t : Text) → is_some (strip_prefix p s) ≡ true → is_some (strip_prefix p (s ++ t)) ≡ true
strip_prefix-append [] s t h = refl
strip_prefix-append (c ∷ p) [] t h = cc
strip_prefix-append (c ∷ p) (d ∷ s) t h = ground (arith, strip_prefix-append p s t)

strip_prefix_self : (p t : Text) → is_some (strip_prefix p (p ++ t)) ≡ true
strip_prefix_self [] t = refl
strip_prefix_self (c ∷ p) t = ground (arith, strip_prefix_self p t)

below_excluded :
    (rel e below : Text)
    → (text_eq rel e || is_some (strip_prefix (e ++ codes "/") rel)) ≡ true
    → is_some (strip_prefix (e ++ codes "/") (rel ++ b'/' ∷ below)) ≡ true
below_excluded rel e below h = elim (Bool-cases (text_eq rel e)) [
  | inl same ↦
      subst (λ r. is_some (strip_prefix (e ++ codes "/") (r ++ b'/' ∷ below)) ≡ true)
        (sym (text_eq→eq rel e same))
        (subst (λ s. is_some (strip_prefix (e ++ codes "/") s) ≡ true)
          (append_assoc e (codes "/") below) (strip_prefix_self (e ++ codes "/") below))
  | inr other ↦ strip_prefix-append (e ++ codes "/") rel (b'/' ∷ below) (ground arith)
]

or_true : (p q : Bool) → ((p || true) || q) ≡ true
or_true true q = refl
or_true false q = refl

-- What lies in an excluded directory, at any depth, is excluded as well.
excluded_below :
    (rel below : Text) (excludes : List Text)
    → excluded rel excludes ≡ true
    → excluded (rel ++ b'/' ∷ below) excludes ≡ true
unfolding excluded
excluded_below rel below [] h = cc
excluded_below rel below (e ∷ excludes) h =
    elim (Bool-cases (text_eq rel e || is_some (strip_prefix (e ++ codes "/") rel))) [
      | inl here ↦
          rw (below_excluded rel e below here)
            (or_true (text_eq (rel ++ b'/' ∷ below) e) (excluded (rel ++ b'/' ∷ below) excludes))
      | inr other ↦ ground (arith, excluded_below rel below excludes)
    ]

last_of-NoSlash : (w : Text) (ws : List Text) → NoSlash w → All NoSlash ws → NoSlash (last_of w ws)
unfolding last_of
last_of-NoSlash w [] h a = h
last_of-NoSlash w (v ∷ ws) h (k, a) = last_of-NoSlash v ws k a

basename-NoSlash : (path : Text) → NoSlash (basename path)
unfolding basename
basename-NoSlash path =
    let (p, q) = split_slash-NoSlash path in
    last_of-NoSlash (split_slash path).0 (split_slash path).1 p q

-- The outcomes of the five tests of `checked_basename`, and of the test for a `/`.
name_tests :
    (empty backslash control dot dots slash : Bool)
    → (not empty && (not backslash && (not control && (not dot && not dots)))) ≡ true
    → slash ≡ false
    → ((not empty && (not slash && (not dot && not dots))) ≡ true)
      × (backslash ≡ false)
      × (control ≡ false)
name_tests false false false false false false h s = (refl, refl, refl)
name_tests empty backslash control dot dots true h s = cc
name_tests true backslash control dot dots false h s = cc
name_tests false true control dot dots false h s = cc
name_tests false false true dot dots false h s = cc
name_tests false false false true dots false h s = cc
name_tests false false false false true false h s = cc

-- A file name from the remote that is accepted is one name of a directory entry, not empty, `.`
-- or `..` and without `/`, and it has no backslash and no control byte.
checked_basename-is_name :
    (rel name : Text)
    → checked_basename rel ≡ ok name
    → (is_name name ≡ true)
      × (contains_char b'\\' name ≡ false)
      × (any is_control_byte name ≡ false)
unfolding checked_basename is_name
checked_basename-is_name rel name h =
    let found = basename rel in
    let (tests, same) = ensure_ok _ refused_name h in
    subst
      (λ n. (is_name n ≡ true) × (contains_char b'\\' n ≡ false) × (any is_control_byte n ≡ false))
      same
      (name_tests (is_empty found) (contains_char b'\\' found) (any is_control_byte found)
        (text_eq found (codes ".")) (text_eq found (codes "..")) (contains_char b'/' found) tests
        (basename-NoSlash rel))
