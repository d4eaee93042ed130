-- ===== src/Tests/ShellRuns.antt =====
-- src/runner.rs, quoting and the remote line, at concrete texts.
use cargo_remote.Prelude.{◌≡◌, refl, List, [], ◌∷◌, map, Text, codes, true, false, some, none, ok}
use cargo_remote.Shell.{
  shell_join, EnvError, bad_key, validate_env_entries, is_valid_env_key, split_once,
}
use cargo_remote.Shell.Reader.{word, sh_read}
use cargo_remote.Shell.Quoting.{sh_read-shell_join}
use cargo_remote.Transfer.{auto}
use cargo_remote.Runner.{
  Context, remote_cargo_words, env_parts, cargo_program, remote_dir, remote_dir_q,
}
use cargo_remote.Runner.CommandLine.{command_tokens, remote_line}

abbrev hostile_words : List Text
hostile_words = codes "build" ∷ codes "it's; $(id) `id`" ∷ [] ∷ codes "a\nb" ∷ []

sh_read-shell_join_example :
    sh_read (codes "/h") (shell_join hostile_words) ≡ some (map word hostile_words)
sh_read-shell_join_example = sh_read-shell_join (codes "/h") hostile_words

abbrev sample : Context
sample = record {
  dry_run = true;
  verbose = false;
  project_root = codes "/tmp/proj";
  project_name = codes "demo";
  host = codes "h";
  remote_base = codes "~/remote-builds/";
  transfer = auto;
  copy_back = false;
  update_lockfile = false;
  sync = true;
  exclude_git = false;
  extra_exclude = [];
  env = codes "FOO=a b" ∷ codes "BAR=1" ∷ [];
  rustflags = some (codes "-Ctarget-cpu=native");
  toolchain = some (codes "nightly");
  interactive = false;
  cargo_path = codes "$HOME/.cargo/bin/cargo";
  arch = none;
  min_rust_version = none;
}

sample_valid : validate_env_entries sample.env ≡ ok tt
unfolding validate_env_entries is_valid_env_key split_once
sample_valid = refl

sample_line :
    remote_cargo_words sample (codes "build" ∷ codes "--release" ∷ [])
    ≡ ok (
        codes
          "cd \"$HOME\"/remote-builds/demo && RUSTFLAGS=-Ctarget-cpu=native FOO='a b' BAR=1 \"$HOME\"/.cargo/bin/cargo +nightly build --release")
unfolding remote_cargo_words env_parts cargo_program remote_dir remote_dir_q
    cargo_remote.Shell.push_env_prefix is_valid_env_key split_once
    cargo_remote.Shell.quote_remote_path cargo_remote.Shell.shell_quote shell_join
sample_line = refl

remote_line_example :
    (line : Text) × (remote_cargo_words sample hostile_words ≡ ok line)
    × (sh_read (codes "/h") line ≡ some (command_tokens (codes "/h") sample hostile_words))
remote_line_example = remote_line (codes "/h") sample hostile_words sample_valid
