-- ===== src/Sshcfg.antt =====
-- src/sshcfg.rs: what is read of the user's ssh configuration, from its text.
pub mod Globs
pub mod Hosts
unfoldable pub use cargo_remote.Prelude.Words.{split_at, lines, lines_of, strip_cr, nonempty, words}
use cargo_remote.Prelude.{
  ℕ, zero, suc, ◌+◌, ◌*◌, List, [], ◌∷◌, ◌++◌, Text, Bytes, codes, Bool, true, false, ◌&&◌, ◌||◌,
  Option, none, some, if◌then◌else◌, ◌==◌, length, is_empty, is_some, text_eq, contains_char,
  unwrap_or, map, strip_prefix, to_ascii_lowercase,
}
use cargo_remote.RunLock.{trim, is_whitespace}

-- The words of a line; none for an empty line and for a comment.
unfoldable pub words_of : Text → List Text
unfolding words
words_of line =
    let line = trim line in
    if is_empty line || is_some (strip_prefix (codes "#") line) then [] else words line

-- `eq_ignore_ascii_case`
unfoldable pub same_keyword : Text → Text → Bool
same_keyword s t = text_eq (to_ascii_lowercase s) (to_ascii_lowercase t)

unfoldable pub contains : List Text → Text → Bool
contains [] h = false
contains (g ∷ hosts) h = text_eq g h || contains hosts h

-- `w.contains('*') || w.contains('?') || w.starts_with('!')`
unfoldable pub is_pattern : Text → Bool
is_pattern w =
    contains_char b'*' w || (contains_char b'?' w || is_some (strip_prefix (codes "!") w))

unfoldable pub add_host : List Text → Text → List Text
unfolding contains is_pattern
add_host hosts w = if is_pattern w || contains hosts w then hosts else hosts ++ w ∷ []

unfoldable pub add_hosts : List Text → List Text → List Text
unfolding add_host
add_hosts hosts [] = hosts
add_hosts hosts (w ∷ ws) = add_hosts (add_host hosts w) ws

unfoldable pub host_line : List Text → List Text → List Text
unfolding same_keyword add_hosts
host_line hosts [] = hosts
host_line hosts (kw ∷ ws) = if same_keyword kw (codes "host") then add_hosts hosts ws else hosts

unfoldable pub hosts_from : List Text → List Text → List Text
unfolding host_line words_of
hosts_from hosts [] = hosts
hosts_from hosts (line ∷ lines) = hosts_from (host_line hosts (words_of line)) lines

unfoldable pub parse_hosts : Text → List Text
unfolding hosts_from lines
parse_hosts text = hosts_from [] (lines text)

-- The last loop of `glob_match`: only stars are left.
unfoldable pub only_stars : Bytes → Bool
only_stars [] = true
only_stars (d ∷ p) = if d == b'*' then only_stars p else false

-- A state of the main loop: what is left of the pattern and of the text, and behind the last star
-- the pattern, with the text that stood at it.
pub record Glob : Type 0 where
  pub p : Bytes
  pub s : Bytes
  pub star : Option (Bytes × Bytes)

-- What a round gives: the next state, or an answer.
pub data Round : Type 0 where
  again : Glob → Round
  answer : Bool → Round

-- Back to the last star, which takes one byte more.
unfoldable pub backtrack : Option (Bytes × Bytes) → Round
backtrack none = answer false
backtrack (some (q, [])) = answer false
backtrack (some (q, x ∷ t)) = again (record { p = q; s = t; star = some (q, t) })

unfoldable pub glob_round : Bytes → Bytes → Option (Bytes × Bytes) → Round
unfolding backtrack only_stars
glob_round p [] star = answer (only_stars p)
glob_round [] (c ∷ s) star = backtrack star
glob_round (d ∷ p) (c ∷ s) star =
    if (d == b'?') || (d == c)
    then again (record { p = p; s = s; star = star })
    else if d == b'*'
    then again (record { p = p; s = c ∷ s; star = some (p, c ∷ s) })
    else backtrack star

-- The loop on fuel; `none` when there is not enough.
unfoldable pub glob_loop : ℕ → Glob → Option Bool
unfolding glob_round
glob_loop zero g = none
glob_loop (suc f) g = elim (glob_round g.p g.s g.star) [
  | answer b ↦ some b
  | again h ↦ glob_loop f h
]

-- Each star can take each place of the text once, and between two such rounds pattern and text
-- only get shorter.
abbrev pub glob_fuel : Bytes → Bytes → ℕ
glob_fuel p s = (length s + 2) * (length p + length s + 1) + 1

unfoldable pub glob_match : Bytes → Bytes → Option Bool
unfolding glob_loop
glob_match p s = glob_loop (glob_fuel p s) (record { p = p; s = s; star = none })

-- The answer of `glob_match`, which always comes (Sshcfg/Globs). `bytes` is `str::as_bytes`.
unfoldable pub matches : (Text → Bytes) → Text → Text → Bool
unfolding glob_match
matches bytes pat alias = unwrap_or (glob_match (bytes pat) (bytes alias)) false

-- The patterns of a `Host` line, from the state that those before have left: a negated one that
-- matches ends the loop.
unfoldable pub host_active : (Text → Bytes) → Text → Bool → List Text → Bool
unfolding matches
host_active bytes alias active [] = active
host_active bytes alias active (pat ∷ pats) = elim (strip_prefix (codes "!") pat) [
  | some neg ↦
      let rest = host_active bytes alias active pats in
      if matches bytes neg alias then false else rest
  | none ↦ host_active bytes alias (if matches bytes pat alias then true else active) pats
]

unfoldable pub first_word : List Text → Option Text
first_word [] = none
first_word (w ∷ ws) = some (to_ascii_lowercase w)

-- `strict_host_key_setting_in`, from a line on.
unfoldable pub strict_from : (Text → Bytes) → Text → Bool → List (List Text) → Option Text
unfolding host_active first_word same_keyword
strict_from bytes alias active [] = none
strict_from bytes alias active ([] ∷ lines) = strict_from bytes alias active lines
strict_from bytes alias active ((kw ∷ ws) ∷ lines) =
    let after_host = strict_from bytes alias (host_active bytes alias false ws) lines in
    let after_other = strict_from bytes alias active lines in
    if same_keyword kw (codes "host")
    then after_host
    else if active && same_keyword kw (codes "stricthostkeychecking")
    then first_word ws
    else after_other

unfoldable pub strict_host_key_setting_in : (Text → Bytes) → Text → Text → Option Text
unfolding strict_from words_of lines
strict_host_key_setting_in bytes text alias =
    strict_from bytes alias false (map words_of (lines text))
