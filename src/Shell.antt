-- ===== src/Shell.antt =====
-- src/runner.rs: quoting for the remote shell, and the validators of what goes on its lines.
pub mod Reader
pub mod Quoting
pub mod Entries
use cargo_remote.Prelude.{
  ℕ, ◌+◌, ◌≡◌, refl, List, [], ◌∷◌, ◌++◌, map, Text, codes, Bool, true, false, not, ◌&&◌, ◌||◌,
  Option, none, some, Result, ok, err, ◌>>=◌, ◌>>◌, ensure, if◌then◌else◌, ◌==◌, all, contains_char,
  is_empty, strip_prefix, text_eq, is_ascii_alphanumeric, is_ascii_alphabetic,
}

-- `s.replace(from, to)` for a one-character `from`
unfoldable pub replace : ℕ → Text → Text → Text
replace from to [] = []
replace from to (c ∷ s) = (if c == from then to else c ∷ []) ++ replace from to s

-- `words.join(sep)`
unfoldable pub join : Text → List Text → Text
join sep [] = []
join sep (w ∷ []) = w
join sep (w ∷ (v ∷ ws)) = w ++ (sep ++ join sep (v ∷ ws))

-- `s.split_once(c)`
unfoldable pub split_once : ℕ → Text → Option (Text × Text)
split_once c [] = none
split_once c (d ∷ s) =
    if d == c
    then some ([], s)
    else elim (split_once c s) [ none ↦ none | some (k, v) ↦ some (d ∷ k, v) ]

-- The characters that `shell_quote` leaves as they are.
unfoldable pub is_plain : ℕ → Bool
is_plain c = is_ascii_alphanumeric c || contains_char c (codes "@%_+=:,./-")

unfoldable pub shell_quote : Text → Text
unfolding is_plain replace
shell_quote s =
    if not (is_empty s) && all is_plain s
    then s
    else b'\'' ∷ (replace b'\'' (codes "'\\''") s ++ b'\'' ∷ [])

unfoldable pub shell_join : List Text → Text
unfolding join
shell_join words = join (codes " ") (map shell_quote words)

-- `strip_prefix("~/").or_else(|| strip_prefix("$HOME/"))`
unfoldable pub strip_home : Text → Option Text
strip_home path = elim (strip_prefix (codes "~/") path) [
  | some rest ↦ some rest
  | none ↦ strip_prefix (codes "$HOME/") path
]

unfoldable pub is_home : Text → Bool
is_home path = text_eq path (codes "~") || text_eq path (codes "$HOME")

unfoldable pub quote_remote_path : Text → Text
unfolding strip_home is_home
quote_remote_path path = if is_home path then codes "\"$HOME\"" else elim (strip_home path) [
  | some rest ↦ codes "\"$HOME\"/" ++ shell_quote rest
  | none ↦ shell_quote path
]

unfoldable pub is_key_char : ℕ → Bool
is_key_char c = is_ascii_alphanumeric c || (c == b'_')

unfoldable pub is_valid_env_key : Text → Bool
unfolding is_key_char
is_valid_env_key [] = false
is_valid_env_key (c ∷ key) = (is_ascii_alphabetic c || (c == b'_')) && all is_key_char key

pub data EnvError : Type 0 where
  no_equals : Text → EnvError
  bad_key : Text → EnvError

-- The key and the value of an entry that passes both checks.
unfoldable pub split_env : Text → Result EnvError (Text × Text)
split_env kv = elim (split_once b'=' kv) [
  | none ↦ err (no_equals kv)
  | some (key, value) ↦ if is_valid_env_key key then ok (key, value) else err (bad_key key)
]

unfoldable pub validate_env_entries : List Text → Result EnvError (Unit {0})
unfolding split_env
validate_env_entries [] = ok tt
validate_env_entries (kv ∷ env) = do _ ← split_env kv; validate_env_entries env

-- `push_env_prefix`: the entries are appended to `parts`.
unfoldable pub push_env_prefix : List Text → List Text → Result EnvError (List Text)
unfolding split_env
push_env_prefix parts [] = ok parts
push_env_prefix parts (kv ∷ env) = do
  (key, value) ← split_env kv
  push_env_prefix (parts ++ (key ++ (b'=' ∷ shell_quote value)) ∷ []) env

-- `KEY=VALUE` is shown as `KEY=***`.
unfoldable pub mask_env : Text → Text
mask_env kv = elim (split_once b'=' kv) [ none ↦ kv | some (key, _) ↦ key ++ codes "=***" ]

unfoldable pub is_valid_toolchain : Text → Bool
is_valid_toolchain s =
    not (is_empty s) && all (λ c. is_ascii_alphanumeric c || contains_char c (codes "._+-")) s

unfoldable pub starts_with_dash : Text → Bool
starts_with_dash [] = false
starts_with_dash (c ∷ s) = c == b'-'

unfoldable pub is_valid_cargo_path : Text → Bool
unfolding strip_home starts_with_dash
is_valid_cargo_path s =
    let rest : Text = elim (strip_home s) [ some r ↦ r | none ↦ s ] in
    not (is_empty rest)
    && (not (starts_with_dash rest)
        && all (λ c. is_ascii_alphanumeric c || contains_char c (codes "._+/-")) rest)

quotes : shell_quote (codes "it's") ≡ codes "'it'\\''s'"
unfolding shell_quote
quotes = refl

home_path : quote_remote_path (codes "~/a$(id)") ≡ codes "\"$HOME\"/'a$(id)'"
unfolding quote_remote_path shell_quote
home_path = refl

bad_env : validate_env_entries (codes "A=b" ∷ codes "1A=x" ∷ []) ≡ err (bad_key (codes "1A"))
unfolding validate_env_entries is_valid_env_key split_once
bad_env = refl
