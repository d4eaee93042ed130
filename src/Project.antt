-- ===== src/Project.antt =====
-- src/project.rs: the project's name on the remote, cargo's subcommands, and the profile.
-- `digest` stands for `Blake2b512::digest` of the UTF-8 bytes of a text.
pub mod Profile
pub mod SafeName
use mathlib.Core.List.{flat_map}
use cargo_remote.Prelude.{
  ℕ, zero, suc, ◌+◌, ◌-◌, ◌/◌, ◌%◌, ◌≡◌, refl, List, [], ◌∷◌, ◌++◌, map, Text, Bytes, codes, Bool,
  true, false, not, ◌&&◌, ◌||◌, Option, none, some, Result, ok, err, ◌>>=◌, ◌>>◌, ensure,
  if◌then◌else◌, ◌==◌, ltb, all, any, is_empty, strip_prefix, unwrap_or, text_eq, contains_char,
  is_ascii_alphanumeric, take,
}

pub data CargoSubcommand : Type 0 where
  build check clippy test run bench doc clean : CargoSubcommand

unfoldable pub as_str : CargoSubcommand → Text
as_str build = codes "build"
as_str check = codes "check"
as_str clippy = codes "clippy"
as_str test = codes "test"
as_str run = codes "run"
as_str bench = codes "bench"
as_str doc = codes "doc"
as_str clean = codes "clean"

-- The test `safe` of `remote_safe_name`.
unfoldable pub is_safe : ℕ → Bool
is_safe c = is_ascii_alphanumeric c || contains_char c (codes "._-")

unfoldable pub hex_digit : ℕ → ℕ
hex_digit n = if ltb n 10 then b'0' + n else b'a' + (n - 10)

-- `{b:02x}`
unfoldable pub hex_byte : ℕ → Text
hex_byte b = hex_digit (b / 16) ∷ hex_digit (b % 16) ∷ []

-- `trim_matches` at the two ends, for the characters `.` and `_`
unfoldable pub is_trimmed : ℕ → Bool
is_trimmed c = (c == b'.') || (c == b'_')

unfoldable pub trim_start : (ℕ → Bool) → Text → Text
trim_start p [] = []
trim_start p (c ∷ s) = if p c then trim_start p s else c ∷ s

unfoldable pub trim_end : (ℕ → Bool) → Text → Text
trim_end p [] = []
trim_end p (c ∷ s) = let t = trim_end p s in if is_empty t && p c then [] else c ∷ t

module _ (digest : Text → Bytes) where
  unfoldable pub short_tag : Text → Text
  unfolding hex_byte hex_digit flat_map
  short_tag s = flat_map hex_byte (take 4 (digest s))

  unfoldable pub sanitized : Text → Text
  unfolding is_trimmed trim_start trim_end
  sanitized raw =
      let mapped = take 40 (map (λ c. if is_safe c then c else b'_') raw) in
      let trimmed = trim_end is_trimmed (trim_start is_trimmed mapped) in
      (if is_empty trimmed then codes "project" else trimmed) ++ (b'-' ∷ short_tag raw)

  unfoldable pub remote_safe_name : Text → Text
  unfolding is_safe
  remote_safe_name raw =
      if not (is_empty raw) && (all is_safe raw && any is_ascii_alphanumeric raw)
      then raw
      else sanitized raw

unfoldable pub is_profile_char : ℕ → Bool
is_profile_char c = is_ascii_alphanumeric c || contains_char c (codes "_-")

-- The loop of `profile_from_args`, from the argument at `i` on.
unfoldable pub scan_args : Text → List Text → Text
scan_args profile [] = profile
scan_args profile (a ∷ []) =
    if text_eq a (codes "--")
    then profile
    else if text_eq a (codes "--release")
    then codes "release"
    else if text_eq a (codes "--profile")
    then profile
    else unwrap_or (strip_prefix (codes "--profile=") a) profile
scan_args profile (a ∷ p ∷ args) =
    let release = scan_args (codes "release") (p ∷ args) in
    let named = scan_args p args in
    let other = scan_args (unwrap_or (strip_prefix (codes "--profile=") a) profile) (p ∷ args) in
    if text_eq a (codes "--")
    then profile
    else if text_eq a (codes "--release")
    then release
    else if text_eq a (codes "--profile")
    then named
    else other

pub data ProfileError : Type 0 where
  invalid_profile : Text → ProfileError

unfoldable pub profile_from_args : List Text → Result ProfileError Text
unfolding scan_args is_profile_char
profile_from_args args = do
  let profile = scan_args (codes "debug") args
  ensure (not (is_empty profile) && all is_profile_char profile) (invalid_profile profile)
  ok profile

explicit : profile_from_args (codes "-j4" ∷ codes "--profile" ∷ codes "dev" ∷ []) ≡ ok (codes "dev")
unfolding profile_from_args
explicit = refl

after_dashes : profile_from_args (codes "--" ∷ codes "--release" ∷ []) ≡ ok (codes "debug")
unfolding profile_from_args
after_dashes = refl

payload :
    remote_safe_name (λ _. 0x0a ∷ 0xff ∷ 1 ∷ 2 ∷ 3 ∷ []) (codes "a$(id)") ≡ codes "a__id-0aff0102"
unfolding remote_safe_name sanitized short_tag
payload = refl
