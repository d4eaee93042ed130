-- ===== src/Tests/SshcfgRuns.antt =====
-- src/sshcfg.rs at the inputs of its own tests and near them.
use cargo_remote.Prelude.{◌≡◌, refl, [], ◌∷◌, ◌++◌, Text, codes, Bool, true, false, some}
use cargo_remote.Sshcfg.{
  lines, words_of, parse_hosts, contains, glob_match, strict_host_key_setting_in, split_at,
  is_pattern, backtrack, only_stars,
}
use cargo_remote.Sshcfg.Globs.{glob_match_ends}
use cargo_remote.Sshcfg.Hosts.{declares, Distinct, parse_hosts-Distinct}
use cargo_remote.RunLock.{trim, is_whitespace}

abbrev newline : Text
newline = 10 ∷ []

abbrev config : Text
config =
    codes "Host dev *.lan"
    ++ newline
    ++ codes "  Host dev prod !x # c"
    ++ newline
    ++ codes "User me"

hosts : parse_hosts config ≡ codes "dev" ∷ codes "prod" ∷ codes "#" ∷ codes "c" ∷ []
unfolding parse_hosts contains is_pattern words_of trim is_whitespace lines split_at
hosts = refl

parse_hosts-Distinct_example :
    ((h : Text) → contains (parse_hosts config) h ≡ declares (lines config) h)
    × Distinct (parse_hosts config)
parse_hosts-Distinct_example = parse_hosts-Distinct config

glob_match_ends_example : (b : Bool) × (glob_match (codes "d*v?") (codes "dev-dvx") ≡ some b)
glob_match_ends_example = glob_match_ends (codes "d*v?") (codes "dev-dvx")

globs :
    (glob_match (codes "dev*") (codes "dev-box") ≡ some true)
    × (glob_match (codes "*-box") (codes "dev-box") ≡ some true)
    × (glob_match (codes "d?x") (codes "dev") ≡ some false)
unfolding glob_match backtrack only_stars
globs = (refl, refl, refl)

-- A star that meets a star in the text is taken for a plain byte.
star_meets_star : glob_match (codes "*") (codes "*a") ≡ some false
unfolding glob_match backtrack only_stars
star_meets_star = refl

-- The block of `dev` gives the setting, though the first one matches too.
setting :
    strict_host_key_setting_in
      (λ t. t)
      (codes "Host d*"
        ++ newline
        ++ codes "User me"
        ++ newline
        ++ codes "Host dev"
        ++ newline
        ++ codes "StrictHostKeyChecking ASK")
      (codes "dev")
    ≡ some (codes "ask")
unfolding strict_host_key_setting_in glob_match backtrack only_stars words_of trim is_whitespace
    lines split_at
setting = refl
