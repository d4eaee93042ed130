-- ===== src/Launch/Status.antt =====
-- src/main.rs: the lines that `build_context` prints before a run.
use cargo_remote.Prelude.{
  ◌≡◌, refl, sym, ap, ◌∙◌, List, [], ◌∷◌, ◌++◌, map, Text, codes, false, Option, none, some, Result,
  ok, err, if◌then◌else◌, bind_ok, err-ne-ok,
}
use cargo_remote.Config.{Config}
use cargo_remote.Shell.{
  split_once, split_env, mask_env, EnvError, validate_env_entries, is_valid_env_key,
}
use cargo_remote.Transfer.{Transfer}
use cargo_remote.Launch.{ConnInfo, sent_texts, host_status_lines}

-- The name of a variable: what stands before the first `=`.
unfoldable pub key_of : Text → Text
key_of kv = elim (split_once b'=' kv) [ none ↦ kv | some (key, _) ↦ key ]

masked :
    (kv : Text) (split : Text × Text)
    → split_env kv ≡ ok split
    → mask_env kv ≡ key_of kv ++ codes "=***"
unfolding mask_env key_of split_env
masked kv split h = go (split_once b'=' kv) h
  where
    go :
        (o : Option (Text × Text))
        → ◌≡◌ {A = Result EnvError (Text × Text)}
            (elim o [
              | none ↦ err (EnvError.no_equals kv)
              | some (key, value) ↦
                  if is_valid_env_key key then ok (key, value) else err (EnvError.bad_key key)
            ])
            (ok split)
        → ◌≡◌ {A = Text}
            (elim o [ none ↦ kv | some (key, _) ↦ key ++ codes "=***" ])
            ((elim o as (λ o. Text) [ none ↦ kv | some (key, _) ↦ key ]) ++ codes "=***")
    go none e = absurd (err-ne-ok e)
    go (some (key, value)) e = refl

all_masked :
    (env : List Text)
    → validate_env_entries env ≡ ok tt
    → map mask_env env ≡ map (λ k. k ++ codes "=***") (map key_of env)
unfolding validate_env_entries
all_masked [] h = refl
all_masked (kv ∷ env) h =
    let (split, (rest, e)) = bind_ok (split_env kv) _ h in
    rw (masked kv split e, all_masked env rest)

same_sent :
    (rustflags : Option Text) (env other : List Text)
    → validate_env_entries env ≡ ok tt
    → validate_env_entries other ≡ ok tt
    → map key_of env ≡ map key_of other
    → sent_texts rustflags env false ≡ sent_texts rustflags other false
unfolding sent_texts
same_sent rustflags env other v w k =
    ap
      (λ l.
        (elim rustflags as (λ o. List Text) [
          | none ↦ []
          | some rf ↦ (codes "RUSTFLAGS=" ++ rf) ∷ []
        ])
        ++ l)
      (all_masked env v ∙ ap (map (λ s. s ++ codes "=***")) k ∙ sym (all_masked other w))

-- The status lines keep the values of the configured environment to themselves: two valid
-- environments with the same variable names give the same lines, whatever the values are, unless
-- the run is verbose.
host_status_lines-masked :
    (host : Text) (info : ConnInfo) (remote_dir : Text) (transfer : Transfer) (cargo_path : Text)
    (toolchain : Option Text) (env other : List Text) (cfg : Config) (rustflags : Option Text)
    → validate_env_entries env ≡ ok tt
    → validate_env_entries other ≡ ok tt
    → map key_of env ≡ map key_of other
    → host_status_lines host info remote_dir transfer cargo_path toolchain env cfg rustflags false
      ≡ host_status_lines host info remote_dir transfer cargo_path toolchain other cfg rustflags
          false
unfolding host_status_lines
host_status_lines-masked host info remote_dir transfer cargo_path toolchain env other cfg rustflags
      v w k =
    rw (same_sent rustflags env other v w k)
