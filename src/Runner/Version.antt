-- ===== src/Runner/Version.antt =====
-- src/runner.rs: what is read from the output of remote commands: architectures, versions, paths.
-- `local_arch` is `std::env::consts::ARCH`.
use cargo_remote.Prelude.{
  ℕ, ◌-◌, ◌^◌, List, [], ◌∷◌, map, Text, codes, Bool, false, ◌&&◌, ◌||◌, Option, none, some, Result,
  ok, err, ◌>>=◌, if◌then◌else◌, ◌==◌, ltb, get_elem?, text_eq, is_ascii_digit, to_ascii_lowercase,
}
use cargo_remote.Prelude.Words.{trim, split_at, lines, words}
use cargo_remote.RunLock.{parse_digits}
use cargo_remote.Agent.Paths.{basename}

unfoldable pub norm_arch : Text → Text
norm_arch s =
    let s = to_ascii_lowercase (trim s) in if text_eq s (codes "arm64") then codes "aarch64" else s

unfoldable pub resolve_arch : Text → Text → Text
unfolding norm_arch
resolve_arch local_arch cfg =
    if text_eq (to_ascii_lowercase (trim cfg)) (codes "host")
    then norm_arch local_arch
    else norm_arch cfg

pub record Version : Type 0 where
  pub major : ℕ
  pub minor : ℕ
  pub patch : ℕ

pub data VersionError : Type 0 where
  no_version bad_component : VersionError

unfoldable pub starts_with_digit : Text → Bool
starts_with_digit [] = false
starts_with_digit (c ∷ s) = is_ascii_digit c

-- `split_whitespace().find(..)`
unfoldable pub version_token : List Text → Option Text
unfolding starts_with_digit
version_token [] = none
version_token (w ∷ ws) = let rest = version_token ws in if starts_with_digit w then some w else rest

-- `take_while(is_ascii_digit)`
unfoldable pub leading_digits : Text → Text
leading_digits [] = []
leading_digits (c ∷ s) = if is_ascii_digit c then c ∷ leading_digits s else []

unfoldable pub number : Option ℕ → Result VersionError ℕ
number none = err bad_component
number (some n) = ok n

-- `digits.parse::<u64>()` of one part
unfoldable pub component : Text → Result VersionError ℕ
unfolding leading_digits parse_digits number
component p = number (parse_digits (leading_digits p) (2 ^ 64 - 1))

-- One call of `next`: what it gives, and the parts that are left.
unfoldable pub next_component : List Text → Result VersionError (ℕ × List Text)
unfolding component
next_component [] = ok (0, [])
next_component (p ∷ parts) = do n ← component p; ok (n, parts)

unfoldable pub version_of : Text → Result VersionError Version
unfolding next_component
version_of tok = do
  let (w, ws) = split_at (λ c. c == b'.') tok
  (a, rest) ← next_component (w ∷ ws)
  (b, rest') ← next_component rest
  (c, _) ← next_component rest'
  ok (record { major = a; minor = b; patch = c })

unfoldable pub version_found : Option Text → Result VersionError Version
unfolding version_of
version_found none = err no_version
version_found (some tok) = version_of tok

unfoldable pub parse_version : Text → Result VersionError Version
unfolding version_token version_found words
parse_version s = version_found (version_token (words s))

-- `a < b` of the triples
unfoldable pub version_ltb : Version → Version → Bool
version_ltb a b =
    ltb a.major b.major
    || ((a.major == b.major)
        && (ltb a.minor b.minor || ((a.minor == b.minor) && ltb a.patch b.patch)))

-- `rsplit('/').next()` of each line
unfoldable pub path_basenames : Text → List Text
unfolding basename
path_basenames out = map (λ l. basename (trim l)) (lines out)

unfoldable pub last_line : List Text → Option Text
last_line [] = none
last_line (l ∷ []) = some l
last_line (l ∷ m ∷ ls) = last_line (m ∷ ls)

unfoldable pub df_avail : Text → Option Text
unfolding last_line
df_avail out = elim (last_line (lines out)) [ none ↦ none | some l ↦ get_elem? (words l) 3 ]
