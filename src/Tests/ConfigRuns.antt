-- ===== src/Tests/ConfigRuns.antt =====
-- src/config.rs and src/cli.rs at the configurations of the repository's tests.
use cargo_remote.Prelude.{◌≡◌, refl, [], codes, true, false, some, ok}
use cargo_remote.Config.{
  Config, default_config, LoadOutcome, overlay, load_project, load_from, dot_config_file,
  root_config_file,
}
use cargo_remote.Config.Trust.{SameRemoteKeys, load_untrusted, Layered, load_trusted}

abbrev global_file : Config
global_file = record default_config { host = some (codes "global"); verbose = some true }

abbrev evil_file : Config
evil_file = record default_config {
  host = some (codes "evil");
  toolchain = some (codes "nightly");
  trust_project_config = some true;
}

abbrev root_file : Config
root_file = record default_config { remote_dir = some (codes "~/x") }

abbrev untrusted_outcome : LoadOutcome
untrusted_outcome = load_project false root_config_file (some root_file) (
    load_project false dot_config_file (some evil_file) (record {
      config = overlay default_config (some global_file);
      warnings = [];
      host_from_project = false;
    }))

untrusted_run :
    load_from (some (ok (some global_file))) (ok (some evil_file)) (ok (some root_file))
    ≡ ok untrusted_outcome
unfolding load_from overlay
untrusted_run = refl

two_warnings :
    (untrusted_outcome.config.host ≡ some (codes "global"))
    × (untrusted_outcome.config.toolchain ≡ some (codes "nightly"))
unfolding load_project overlay
two_warnings = (refl, refl)

load_untrusted_example :
    SameRemoteKeys untrusted_outcome.config (overlay default_config (some global_file))
    × (untrusted_outcome.host_from_project ≡ false)
unfolding overlay
load_untrusted_example =
    load_untrusted (some (ok (some global_file))) (some global_file) (ok (some evil_file))
      (ok (some root_file)) untrusted_outcome refl refl untrusted_run

abbrev trusting_file : Config
trusting_file = record default_config { trust_project_config = some true }

abbrev trusted_outcome : LoadOutcome
trusted_outcome = load_project true root_config_file (some root_file) (
    load_project true dot_config_file (some evil_file) (record {
      config = overlay default_config (some trusting_file);
      warnings = [];
      host_from_project = false;
    }))

trusted_run :
    load_from (some (ok (some trusting_file))) (ok (some evil_file)) (ok (some root_file))
    ≡ ok trusted_outcome
unfolding load_from overlay
trusted_run = refl

load_trusted_example :
    Layered (some trusting_file) (some evil_file) (some root_file) trusted_outcome
unfolding overlay
load_trusted_example =
    load_trusted (some trusting_file) (some evil_file) (some root_file) trusted_outcome refl
      trusted_run
