-- ===== src/Config/Trust.antt =====
-- src/config.rs: what a project's files can change in the result of `load_from`.
use cargo_remote.Prelude.{
  ◌≡◌, refl, [], Text, Bool, true, false, ◌||◌, Option, none, some, ok, err, or_else, unwrap_or,
  is_some, ok-injective, err-ne-ok, ◌∙◌, subst,
}
use cargo_remote.Config.{
  Config, default_config, LoadOutcome, ReadResult, overlay, load_project, load_from, is_trusted,
  strip_project_keys, dot_config_file, root_config_file,
}

-- Two configurations agree on the keys that steer the remote side.
pub record SameRemoteKeys (c d : Config) : Type 0 where
  pub host : c.host ≡ d.host
  pub remote_dir : c.remote_dir ≡ d.remote_dir
  pub cargo_path : c.cargo_path ≡ d.cargo_path
  pub copy_back : c.copy_back ≡ d.copy_back
  pub trust : c.trust_project_config ≡ d.trust_project_config

load_project_keys :
    (rel : Text) (file : Option Config) (out : LoadOutcome)
    → SameRemoteKeys (load_project false rel file out).config out.config
      × ((load_project false rel file out).host_from_project ≡ out.host_from_project)
unfolding load_project overlay strip_project_keys
load_project_keys rel none out = (
  record { host = refl; remote_dir = refl; cargo_path = refl; copy_back = refl; trust = refl },
  refl,
)
load_project_keys rel (some c) out = (
  record { host = refl; remote_dir = refl; cargo_path = refl; copy_back = refl; trust = refl },
  refl,
)

two_files :
    (a b : Option Config) (base : Config)
    → let first =
        load_project false dot_config_file a
          (record { config = base; warnings = []; host_from_project = false }) in
      SameRemoteKeys (load_project false root_config_file b first).config base
      × ((load_project false root_config_file b first).host_from_project ≡ false)
two_files a b base =
    let start : LoadOutcome = record { config = base; warnings = []; host_from_project = false } in
    let first = load_project false dot_config_file a start in
    let (k, p) = load_project_keys dot_config_file a start in
    let (l, q) = load_project_keys root_config_file b first in
    (
      record {
        host = l.host ∙ k.host;
        remote_dir = l.remote_dir ∙ k.remote_dir;
        cargo_path = l.cargo_path ∙ k.cargo_path;
        copy_back = l.copy_back ∙ k.copy_back;
        trust = l.trust ∙ k.trust;
      },
      q ∙ p,
    )

-- Unless the global configuration sets `trust_project_config`, the keys `host`, `remote_dir`,
-- `cargo_path`, `copy_back` and `trust_project_config` of the result are the global ones, whatever
-- the project's files hold, and the host does not come from the project.
pub load_untrusted :
    (global : Option ReadResult) (g : Option Config) (dot_config at_root : ReadResult)
    (out : LoadOutcome)
    → unwrap_or global (ok none) ≡ ok g
    → is_trusted (overlay default_config g) ≡ false
    → load_from global dot_config at_root ≡ ok out
    → SameRemoteKeys out.config (overlay default_config g) × (out.host_from_project ≡ false)
unfolding load_from
load_untrusted global g (err e) at_root out hg ht h = absurd (err-ne-ok (rw hg at h))
load_untrusted global g (ok a) (err e) out hg ht h = absurd (err-ne-ok (rw hg at h))
load_untrusted global g (ok a) (ok b) out hg ht h =
    subst (λ o. SameRemoteKeys o.config (overlay default_config g) × (o.host_from_project ≡ false))
      (ok-injective (rw (hg, ht) at h)) (two_files a b (overlay default_config g))

-- A key of a file's configuration, if there is a file.
abbrev pub key {ℓ} : {A : Type ℓ} → (Config → Option A) → Option Config → Option A
key get none = none
key get (some c) = get c

-- A key of the result, by precedence.
abbrev pub layered {ℓ} :
    {A : Type ℓ} → (Config → Option A) → Option Config → Option Config → Option Config → Option A
layered get g a b = or_else (key get b) (or_else (key get a) (get (overlay default_config g)))

abbrev pub Layered : Option Config → Option Config → Option Config → LoadOutcome → Type 0
Layered g a b out =
    (out.config.host ≡ layered (λ c. c.host) g a b)
    × (out.config.remote_dir ≡ layered (λ c. c.remote_dir) g a b)
    × (out.config.cargo_path ≡ layered (λ c. c.cargo_path) g a b)
    × (out.config.copy_back ≡ layered (λ c. c.copy_back) g a b)
    × (out.host_from_project ≡ (is_some (key (λ c. c.host) a) || is_some (key (λ c. c.host) b)))

or-false : (b : Bool) → b ≡ (b || false)
or-false true = refl
or-false false = refl

trusted_files :
    (g a b : Option Config)
    → Layered g a b (
        load_project true root_config_file b (
          load_project true dot_config_file a (record {
            config = overlay default_config g;
            warnings = [];
            host_from_project = false;
          })))
unfolding load_project overlay
trusted_files g none none = (refl, refl, refl, refl, refl)
trusted_files g (some a) none = (refl, refl, refl, refl, or-false _)
trusted_files g none (some b) = (refl, refl, refl, refl, refl)
trusted_files g (some a) (some b) = (refl, refl, refl, refl, refl)

-- With trust granted by the global configuration the keys `host`, `remote_dir`, `cargo_path` and
-- `copy_back` come from the project's root file, else its `.config` file, else the global one, and
-- the host counts as the project's exactly when one of its files sets it.
pub load_trusted :
    (g a b : Option Config) (out : LoadOutcome)
    → is_trusted (overlay default_config g) ≡ true
    → load_from (some (ok g)) (ok a) (ok b) ≡ ok out
    → Layered g a b out
unfolding load_from
load_trusted g a b out ht h =
    subst (Layered g a b) (ok-injective (rw ht at h)) (trusted_files g a b)
