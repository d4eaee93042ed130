-- ===== src/Runner/Versions.antt =====
-- src/runner.rs: `parse_version` reads the versions that tools print.
use cargo_remote.Prelude.{
  ℕ, ◌-◌, ◌^◌, ◌<◌, ◌≡◌, refl, sym, ap, ◌∙◌, List, [], ◌∷◌, ◌++◌, Text, Bool, true, false, some, ok,
  ◌==◌, all, any, is_empty, is_ascii_digit, arith, append-nil, le→leb, or_false,
}
use cargo_remote.Prelude.Words.{is_whitespace, split_at, nonempty, words}
use cargo_remote.RunLock.{decimal, value_from, parse_digits}
use cargo_remote.RunLock.Decimal.{value_from-decimal, all-decimal, decimal_nonempty, digit_no_space}
use cargo_remote.Runner.Version.{
  Version, starts_with_digit, version_token, leading_digits, component, next_component, version_of,
  version_found, parse_version,
}

-- No character of the text is one that `at` holds of.
abbrev Free : (ℕ → Bool) → Text → Type 0
Free at s = any at s ≡ false

split_at-append :
    (at : ℕ → Bool) (w rest : Text)
    → Free at w
    → split_at at (w ++ rest) ≡ (w ++ (split_at at rest).0, (split_at at rest).1)
unfolding split_at
split_at-append at [] rest h = refl
split_at-append at (c ∷ w) rest h =
    let (other, more) = or_false (at c) (any at w) h in rw (other, split_at-append at w rest more)

-- A piece that ends at a separator.
split_at-piece :
    (at : ℕ → Bool) (w : Text) (c : ℕ) (rest : Text)
    → Free at w
    → at c ≡ true
    → split_at at (w ++ c ∷ rest) ≡ (w, (split_at at rest).0 ∷ (split_at at rest).1)
unfolding split_at
split_at-piece at w c rest h e =
    split_at-append at w (c ∷ rest) h
    ∙ rw e (ap (λ v. (v, (split_at at rest).0 ∷ (split_at at rest).1)) (append-nil w))

split_at-last : (at : ℕ → Bool) (w : Text) → Free at w → split_at at w ≡ (w, [])
unfolding split_at
split_at-last at w h =
    ap (split_at at) (sym (append-nil w))
    ∙ split_at-append at w [] h
    ∙ ap (λ v. (v, [])) (append-nil w)

Free-append : (at : ℕ → Bool) (s t : Text) → Free at s → Free at t → Free at (s ++ t)
Free-append at [] t h k = k
Free-append at (c ∷ s) t h k =
    let (other, more) = or_false (at c) (any at s) h in rw (other, Free-append at s t more k)

-- Digits are free of what no digit is.
digits-Free :
    (at : ℕ → Bool)
    → ((c : ℕ) → is_ascii_digit c ≡ true → at c ≡ false)
    → (s : Text) → all is_ascii_digit s ≡ true
    → Free at s
digits-Free at never [] h = refl
digits-Free at never (c ∷ s) h = ground (arith, never c, digits-Free at never s)

leading_digits-append :
    (d suffix : Text)
    → all is_ascii_digit d ≡ true
    → starts_with_digit suffix ≡ false
    → leading_digits (d ++ suffix) ≡ d
unfolding leading_digits starts_with_digit
leading_digits-append [] [] h k = refl
leading_digits-append [] (c ∷ suffix) h k = rw k refl
leading_digits-append (c ∷ d) suffix h k = ground (arith, leading_digits-append d suffix)

-- `{}` of a `u64`
abbrev pub show_u64 : ℕ → Text
show_u64 n = decimal 20 n

component-show_u64 :
    (n : ℕ) (suffix : Text)
    → n < 2 ^ 64
    → starts_with_digit suffix ≡ false
    → component (show_u64 n ++ suffix) ≡ ok n
unfolding component parse_digits
component-show_u64 n suffix l k =
    let value = value_from-decimal 20 n (omega arith) in
    rw (
      leading_digits-append (show_u64 n) suffix (all-decimal 20 n) k,
      decimal_nonempty 19 n,
      all-decimal 20 n,
      le→leb (value_from 0 (show_u64 n)) (2 ^ 64 - 1) (omega (arith, value)),
      value,
    )

-- A version with what a tool prints right behind it, such as `-nightly`.
unfoldable pub version_text : Version → Text → Text
version_text v suffix =
    show_u64 v.major ++ b'.' ∷ (show_u64 v.minor ++ b'.' ∷ (show_u64 v.patch ++ suffix))

pub record Fits (v : Version) : Type 0 where
  pub major_fits : v.major < 2 ^ 64
  pub minor_fits : v.minor < 2 ^ 64
  pub patch_fits : v.patch < 2 ^ 64

abbrev is_dot : ℕ → Bool
is_dot c = c == b'.'

dot-Free : (n : ℕ) → Free is_dot (show_u64 n)
dot-Free n = digits-Free is_dot (λ c h. ground arith) (show_u64 n) (all-decimal 20 n)

space-Free : (n : ℕ) → Free is_whitespace (show_u64 n)
space-Free n = digits-Free is_whitespace digit_no_space (show_u64 n) (all-decimal 20 n)

version_of-version_text :
    (v : Version) (suffix : Text)
    → Fits v
    → Free is_dot suffix
    → starts_with_digit suffix ≡ false
    → version_of (version_text v suffix) ≡ ok v
unfolding version_of version_text next_component starts_with_digit
version_of-version_text v suffix f plain k =
    rw
      (
        split_at-piece is_dot (show_u64 v.major) b'.'
            (show_u64 v.minor ++ b'.' ∷ (show_u64 v.patch ++ suffix)) (dot-Free v.major) refl,
        split_at-piece is_dot (show_u64 v.minor) b'.' (show_u64 v.patch ++ suffix)
            (dot-Free v.minor) refl,
        split_at-last is_dot (show_u64 v.patch ++ suffix)
            (Free-append is_dot (show_u64 v.patch) suffix (dot-Free v.patch) plain),
        whole v.major f.major_fits,
        whole v.minor f.minor_fits,
        component-show_u64 v.patch suffix f.patch_fits k,
      )
      refl
  where
    whole : (n : ℕ) → n < 2 ^ 64 → component (show_u64 n) ≡ ok n
    whole n l = ap component (sym (append-nil (show_u64 n))) ∙ component-show_u64 n [] l refl

digits_first :
    (d rest : Text)
    → is_empty d ≡ false
    → all is_ascii_digit d ≡ true
    → starts_with_digit (d ++ rest) ≡ true
unfolding starts_with_digit
digits_first [] rest e h = cc
digits_first (c ∷ d) rest e h = ground arith

not_empty : (d rest : Text) → is_empty d ≡ false → is_empty (d ++ rest) ≡ false
not_empty [] rest e = cc
not_empty (c ∷ d) rest e = refl

version_text-Free :
    (v : Version) (suffix : Text)
    → Free is_whitespace suffix
    → Free is_whitespace (version_text v suffix)
unfolding version_text decimal is_whitespace
version_text-Free v suffix h = Free-append is_whitespace (show_u64 v.major) _ (space-Free v.major) (
    Free-append is_whitespace (show_u64 v.minor) _ (space-Free v.minor)
      (Free-append is_whitespace (show_u64 v.patch) suffix (space-Free v.patch) h))

-- The words of a text that starts with a version.
version_first :
    (v : Version) (suffix : Text) (ws : List Text)
    → version_token (nonempty (version_text v suffix ∷ ws)) ≡ some (version_text v suffix)
unfolding version_token nonempty version_text
version_first v suffix ws =
    let d = decimal_nonempty 19 v.major in
    rw
      (
        not_empty (show_u64 v.major) _ d,
        digits_first (show_u64 v.major) _ d (all-decimal 20 v.major),
      )
      refl

-- A tool's name is passed over.
tool_skipped :
    (tool : Text) (ws : List Text)
    → starts_with_digit tool ≡ false
    → version_token (nonempty (tool ∷ ws)) ≡ version_token (nonempty ws)
unfolding version_token nonempty
tool_skipped [] ws h = refl
tool_skipped (c ∷ tool) ws h = rw h refl

-- The version that a tool prints is read as it is: in a text that is the tool's name, a space, a
-- version of three `u64`s with nothing or a suffix like `-nightly` behind it, and a space or a
-- newline with any text behind it. The name and the suffix have no white space and start with no
-- digit, and the suffix has no dot.
pub parse_version-version_text :
    (tool : Text) (v : Version) (suffix : Text) (c : ℕ) (rest : Text)
    → any is_whitespace tool ≡ false
    → starts_with_digit tool ≡ false
    → Fits v
    → any is_whitespace suffix ≡ false
    → any (λ d. d == b'.') suffix ≡ false
    → starts_with_digit suffix ≡ false
    → is_whitespace c ≡ true
    → parse_version (tool ++ b' ' ∷ (version_text v suffix ++ c ∷ rest)) ≡ ok v
unfolding parse_version words is_whitespace
parse_version-version_text tool v suffix c rest no_space named f plain no_dot ended space =
    let behind = (split_at is_whitespace rest).0 ∷ (split_at is_whitespace rest).1 in
    let cut : split_at is_whitespace (tool ++ b' ' ∷ (version_text v suffix ++ c ∷ rest))
        ≡ (tool, version_text v suffix ∷ behind) =
      split_at-piece is_whitespace tool b' ' (version_text v suffix ++ c ∷ rest) no_space refl
      ∙ ap (λ p. (tool, p.0 ∷ p.1))
          (split_at-piece is_whitespace (version_text v suffix) c rest
            (version_text-Free v suffix plain) space) in
    ap (λ p. version_found (version_token (nonempty (p.0 ∷ p.1)))) cut
    ∙ ap version_found
        (tool_skipped tool (version_text v suffix ∷ behind) named ∙ version_first v suffix behind)
    ∙ version_of-version_text v suffix f no_dot ended
