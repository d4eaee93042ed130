-- ===== src/Config.antt =====
-- src/config.rs: configuration layers and which of their keys a project file may set.
pub mod Trust
use cargo_remote.Prelude.{
  ◌≡◌, refl, List, [], ◌∷◌, ◌++◌, Text, codes, Bool, true, false, not, ◌||◌, ◌&&◌, Option, none,
  some, Result, ok, err, ◌>>=◌, if◌then◌else◌, or_else, unwrap_or, is_some, is_empty,
}
use cargo_remote.Cli.{TransferMode}
use cargo_remote.Shell.{join}

pub record Config : Type 0 where
  pub host : Option Text
  pub remote_dir : Option Text
  pub cargo_path : Option Text
  pub transfer : Option TransferMode
  pub copy_back : Option Bool
  pub sync : Option Bool
  pub exclude_git : Option Bool
  pub exclude : Option (List Text)
  pub env : Option (List Text)
  pub toolchain : Option Text
  pub verbose : Option Bool
  pub sync_status : Option Bool
  pub arch : Option Text
  pub min_rust_version : Option Text
  pub trust_project_config : Option Bool

abbrev pub default_config : Config
default_config = record {
  host = none;
  remote_dir = none;
  cargo_path = none;
  transfer = none;
  copy_back = none;
  sync = none;
  exclude_git = none;
  exclude = none;
  env = none;
  toolchain = none;
  verbose = none;
  sync_status = none;
  arch = none;
  min_rust_version = none;
  trust_project_config = none;
}

pub record LoadOutcome : Type 0 where
  pub config : Config
  pub warnings : List Text
  pub host_from_project : Bool

abbrev if_some {ℓ} : {A : Type ℓ} → Option A → Text → List Text
if_some o name = if is_some o then name ∷ [] else []

-- The config without the remote-control keys, and the names of those that were set.
unfoldable pub strip_project_keys : Config → Config × List Text
strip_project_keys c = (
  record c {
    host = none;
    remote_dir = none;
    cargo_path = none;
    copy_back = none;
    trust_project_config = none;
  },
  if_some c.host (codes "host")
      ++ (if_some c.remote_dir (codes "remote_dir")
          ++ (if_some c.cargo_path (codes "cargo_path")
              ++ if_some c.copy_back (codes "copy_back"))),
)

unfoldable pub concat : Option (List Text) → Option (List Text) → Option (List Text)
concat none none = none
concat none (some b) = some b
concat (some a) b = some (a ++ unwrap_or b [])

-- `overlay`: `o` has the higher precedence.
unfoldable pub overlay : Config → Option Config → Config
unfolding concat
overlay self none = self
overlay self (some o) = record {
  host = or_else o.host self.host;
  remote_dir = or_else o.remote_dir self.remote_dir;
  cargo_path = or_else o.cargo_path self.cargo_path;
  transfer = or_else o.transfer self.transfer;
  copy_back = or_else o.copy_back self.copy_back;
  sync = or_else o.sync self.sync;
  exclude_git = or_else o.exclude_git self.exclude_git;
  exclude = concat self.exclude o.exclude;
  env = concat self.env o.env;
  toolchain = or_else o.toolchain self.toolchain;
  verbose = or_else o.verbose self.verbose;
  sync_status = or_else o.sync_status self.sync_status;
  arch = or_else o.arch self.arch;
  min_rust_version = or_else o.min_rust_version self.min_rust_version;
  trust_project_config = or_else o.trust_project_config self.trust_project_config;
}

-- What `read` of a file gives: an error of the file system or the TOML parser, no file, a config.
pub data ReadError : Type 0 where
  invalid_toml cannot_read : Text → ReadError

abbrev pub ReadResult : Type 0
ReadResult = Result ReadError (Option Config)

unfoldable pub warning_for : Text → List Text → Text
warning_for rel stripped =
    codes "ignoring "
    ++ (join (codes ", ") stripped
        ++ (codes " from "
            ++ (rel
                ++ codes
                    ": project config is untrusted (set trust_project_config = true in your global cargo-remote config to allow these keys)")))

-- One round of the loop over the two project files.
unfoldable pub load_project : Bool → Text → Option Config → LoadOutcome → LoadOutcome
unfolding strip_project_keys
load_project trusted rel none out = out
load_project true rel (some c) out = record out {
  config = overlay out.config (some c);
  host_from_project = out.host_from_project || is_some c.host;
}
load_project false rel (some c) out =
    let (clean, stripped) = strip_project_keys c in
    record out {
      config = overlay out.config (some clean);
      warnings =
          if is_empty stripped then out.warnings else out.warnings ++ warning_for rel stripped ∷ [];
    }

abbrev pub dot_config_file : Text
dot_config_file = codes ".config/cargo-remote.toml"

abbrev pub root_config_file : Text
root_config_file = codes ".cargo-remote.toml"

abbrev pub is_trusted : Config → Bool
is_trusted c = unwrap_or c.trust_project_config false

-- `load_from`: `global` is what `read` gives for the global file, `none` where there is no path to
-- one; `dot_config` and `at_root` are what it gives for the project's two files.
unfoldable pub load_from :
    Option ReadResult → ReadResult → ReadResult → Result ReadError LoadOutcome
load_from global dot_config at_root = do
  g ← unwrap_or global (ok none)
  let cfg = overlay default_config g
  let trusted = is_trusted cfg
  a ← dot_config
  let first =
      load_project trusted dot_config_file a
        (record { config = cfg; warnings = []; host_from_project = false })
  b ← at_root
  ok (load_project trusted root_config_file b first)
