-- ===== src/Project/Profile.antt =====
-- src/project.rs: what `profile_from_args` accepts, and which arguments it reads.
use cargo_remote.Prelude.{
  ℕ, ◌<◌, ◌≡◌, ◌≢◌, refl, List, [], ◌∷◌, ◌++◌, Text, codes, Bool, true, false, not, ◌&&◌, ◌||◌, ok,
  ◌==◌, all, is_empty, strip_prefix, unwrap_or, text_eq, arith, true_below, true_below-at,
  ensure_ok, or_false, subst,
}
use mathlib.Core.List.{cons-ne-nil}
use cargo_remote.Shell.Reader.{is_special}
use cargo_remote.Project.{is_profile_char, scan_args, invalid_profile, profile_from_args}

-- A character that neither the shell nor a path gives a meaning to.
unfoldable pub is_inert : ℕ → Bool
unfolding is_special
is_inert c = not (is_special c) && (not (c == b'/') && not (c == b'.'))

inert_table : true_below (λ c. not (is_profile_char c) || is_inert c) 128 ≡ true
unfolding true_below is_profile_char is_inert
inert_table = refl

profile_char_below : (c : ℕ) → is_profile_char c ≡ true → c < 128
unfolding is_profile_char
profile_char_below c h = ground arith

profile_char-inert : (c : ℕ) → is_profile_char c ≡ true → is_inert c ≡ true
profile_char-inert c h = ground (
  arith,
  true_below-at (λ d. not (is_profile_char d) || is_inert d) 128 c (profile_char_below c h)
      inert_table,
)

all_profile_char-inert : (s : Text) → all is_profile_char s ≡ true → all is_inert s ≡ true
all_profile_char-inert [] h = refl
all_profile_char-inert (c ∷ s) h = ground (arith, profile_char-inert c, all_profile_char-inert s)

named :
    (p : Text)
    → (not (is_empty p) && all is_profile_char p) ≡ true
    → (p ≢ []) × (all is_inert p ≡ true)
named [] h = cc
named (c ∷ p) h = (cons-ne-nil c p, all_profile_char-inert (c ∷ p) h)

-- Whatever the arguments are, a profile that `profile_from_args` returns is a nonempty text in
-- which no character is special to the shell and none is `/` or `.`: it adds exactly one
-- component to the remote and local paths it is put in, and never `..`.
pub profile_from_args-inert :
    (args : List Text) (profile : Text)
    → profile_from_args args ≡ ok profile
    → (profile ≢ []) × (all is_inert profile ≡ true)
unfolding profile_from_args
profile_from_args-inert args profile h =
    let p = scan_args (codes "debug") args in
    let (good, e) = ensure_ok (not (is_empty p) && all is_profile_char p) (invalid_profile p) h in
    subst (λ s. (s ≢ []) × (all is_inert s ≡ true)) e (named p good)

-- No argument is `--profile` on its own, the form that takes the next argument.
unfoldable pub has_profile_flag : List Text → Bool
has_profile_flag [] = false
has_profile_flag (a ∷ args) = text_eq a (codes "--profile") || has_profile_flag args

scan_args-dashes :
    (args rest : List Text) (profile : Text)
    → has_profile_flag args ≡ false
    → scan_args profile (args ++ codes "--" ∷ rest) ≡ scan_args profile args
unfolding has_profile_flag scan_args
scan_args-dashes [] [] profile h = refl
scan_args-dashes [] (r ∷ rest) profile h = refl
scan_args-dashes (a ∷ []) rest profile h =
    let (bare, later) = or_false (text_eq a (codes "--profile")) false h in
    let other = unwrap_or (strip_prefix (codes "--profile=") a) profile in
    rw
      (bare, scan_args-dashes [] rest (codes "release") later, scan_args-dashes [] rest other later)
scan_args-dashes (a ∷ b ∷ args) rest profile h =
    let (bare, later) = or_false (text_eq a (codes "--profile")) (has_profile_flag (b ∷ args)) h in
    let other = unwrap_or (strip_prefix (codes "--profile=") a) profile in
    rw (
      bare,
      scan_args-dashes (b ∷ args) rest (codes "release") later,
      scan_args-dashes (b ∷ args) rest other later,
    )

-- What stands behind `--` belongs to the program that cargo runs: when no argument before it is
-- a bare `--profile`, `profile_from_args` gives the same result without it and all that follows.
profile_from_args-dashes :
    (args rest : List Text)
    → has_profile_flag args ≡ false
    → profile_from_args (args ++ codes "--" ∷ rest) ≡ profile_from_args args
unfolding profile_from_args
profile_from_args-dashes args rest h = rw (scan_args-dashes args rest (codes "debug") h)
