-- ===== src/Shell/Entries.antt =====
-- src/runner.rs: remote paths and environment entries against the reader of Shell/Reader.
use cargo_remote.Prelude.{
  ℕ, ◌≡◌, refl, ap, sym, List, [], ◌∷◌, ◌++◌, Text, codes, Bool, true, false, not, Option, none,
  some, Result, ok, err, if◌then◌else◌, ◌==◌, all, arith, append_assoc, append-nil, Bool-cases, inl,
  inr, ok-injective, bind_ok, ◌>>=◌, ◌⊎◌, ==_iff, subst,
}
use mathlib.Core.Bool.{false≢true}
use cargo_remote.Shell.{
  is_plain, shell_quote, quote_remote_path, strip_home, is_home, EnvError, no_equals, bad_key,
  push_env_prefix, split_env, validate_env_entries, split_once, is_valid_env_key, is_key_char,
}
use cargo_remote.Shell.Reader.{is_special, read_plain, read_all, read_mode}
use cargo_remote.Shell.Quoting.{
  Adds, Reads, ReadsAll, not_special, Reads-shell_quote, Reads-append, Adds-shell_quote, Adds-inert,
  Adds-append, ReadsAll-append,
}

key_char_inert : (c : ℕ) → is_key_char c ≡ true → is_special c ≡ false
unfolding is_key_char
key_char_inert c h = not_special c (unfold is_plain in ground arith)

abbrev Splits : ℕ → Text → Option (Text × Text) → Type 0
Splits c s none = Unit {0}
Splits c s (some (k, v)) = s ≡ k ++ (c ∷ v)

split_once-Splits : (c : ℕ) (s : Text) → Splits c s (split_once c s)
unfolding split_once
split_once-Splits c [] = tt
split_once-Splits c (d ∷ s) = go (split_once c s) (split_once-Splits c s) (Bool-cases (d == c))
  where
    go :
        (o : Option (Text × Text))
        → Splits c s o
        → ((d == c) ≡ true) ⊎ ((d == c) ≡ false)
        → Splits c (d ∷ s) (
            if d == c then some ([], s) else elim o [ none ↦ none | some (k, v) ↦ some (d ∷ k, v) ])
    go o h (inl e) = rw e (ap (λ t. t ∷ s) ((==_iff d c).0 e))
    go none h (inr e) = rw e tt
    go (some (k, v)) h (inr e) = rw e (ap (λ t. d ∷ t) h)

-- An accepted entry is its key, `=` and its value, and the key is a valid one.
pub split_env_ok :
    (kv key value : Text)
    → split_env kv ≡ ok (key, value)
    → (kv ≡ key ++ (b'=' ∷ value)) × (is_valid_env_key key ≡ true)
unfolding split_env
split_env_ok kv key value h = go (split_once b'=' kv) (split_once-Splits b'=' kv) h
  where
    go :
        (o : Option (Text × Text))
        → Splits b'=' kv o
        → ◌≡◌ {A = Result EnvError (Text × Text)}
            (elim o [
              | none ↦ err (no_equals kv)
              | some (k, v) ↦ if is_valid_env_key k then ok (k, v) else err (bad_key k)
            ])
            (ok (key, value))
        → (kv ≡ key ++ (b'=' ∷ value)) × (is_valid_env_key key ≡ true)
    go none s e = cc
    go (some (k, v)) s e = ground arith

module _ (home : Text) where
  -- What a remote path stands for, with the home directory put in.
  unfoldable pub expand_home : Text → Text
  expand_home path =
      if is_home path
      then home
      else elim (strip_home path) [ some rest ↦ home ++ (b'/' ∷ rest) | none ↦ path ]

  home_read : Reads home (codes "\"$HOME\"") home
  unfolding read_all read_mode read_plain
  home_read = record { starts = omega arith; adds = λ done u. refl }

  Adds-slash : Adds home (codes "/") (codes "/")
  Adds-slash = Adds-inert home (codes "/") (unfold is_special in refl)

  read_path :
      (at_home : Bool) (rest : Option Text) (path : Text)
      → Reads home
          (if at_home then codes "\"$HOME\"" else elim rest [
            | some r ↦ codes "\"$HOME\"/" ++ shell_quote r
            | none ↦ shell_quote path
          ])
          (if at_home then home else elim rest [ some r ↦ home ++ (b'/' ∷ r) | none ↦ path ])
  read_path true rest path = home_read
  read_path false none path = Reads-shell_quote home path
  read_path false (some r) path =
      Reads-append home (codes "\"$HOME\"") (b'/' ∷ shell_quote r) home (b'/' ∷ r) home_read (
        Adds-append home (codes "/") (shell_quote r) (codes "/") r Adds-slash
          (Adds-shell_quote home r))

  pub Reads-quote_remote_path :
      (path : Text) → Reads home (quote_remote_path path) (expand_home path)
  unfolding quote_remote_path expand_home
  Reads-quote_remote_path path = read_path (is_home path) (strip_home path) path

  -- Reading a key and the `=` behind it.
  key_inert :
      (key : Text)
      → all is_key_char key ≡ true
      → all (λ c. not (is_special c)) (key ++ codes "=") ≡ true
  key_inert [] h = unfold is_special in refl
  key_inert (c ∷ key) h = ground (arith, key_char_inert c, key_inert key)

  -- An assignment with a valid key is read as the key, `=` and the value.
  pub Reads-key :
      (key value : Text)
      → is_valid_env_key key ≡ true
      → Reads home (key ++ (b'=' ∷ shell_quote value)) (key ++ (b'=' ∷ value))
  unfolding is_valid_env_key
  Reads-key [] value h = absurd (false≢true h)
  Reads-key (c ∷ key) value h =
      subst (λ t. Reads home t ((c ∷ key) ++ (b'=' ∷ value)))
        (append_assoc (c ∷ key) (codes "=") (shell_quote value))
        (subst (Reads home (((c ∷ key) ++ codes "=") ++ shell_quote value))
          (append_assoc (c ∷ key) (codes "=") value)
          (Reads-append home ((c ∷ key) ++ codes "=") (shell_quote value) ((c ∷ key) ++ codes "=")
            value
            (record {
              starts = ground arith;
              adds = Adds-inert home _ (key_inert (c ∷ key) (ground arith));
            })
            (Adds-shell_quote home value)))

  -- The assignment of an accepted entry is read as the entry itself.
  Reads-assignment :
      (kv key value : Text)
      → split_env kv ≡ ok (key, value)
      → Reads home (key ++ (b'=' ∷ shell_quote value)) kv
  Reads-assignment kv key value h =
      let (whole, valid) = split_env_ok kv key value h in
      subst (Reads home (key ++ (b'=' ∷ shell_quote value))) (sym whole) (Reads-key key value valid)

  pub push_read :
      (parts words env out : List Text)
      → ReadsAll home parts words
      → push_env_prefix parts env ≡ ok out
      → ReadsAll home out (words ++ env)
  unfolding push_env_prefix
  push_read parts words [] out p h =
      subst (λ o. ReadsAll home o (words ++ [])) (ok-injective h) (rw append-nil p)
  push_read parts words (kv ∷ env) out p h =
      let ((key, value), (rest, e)) = bind_ok (split_env kv) _ h in
      subst (ReadsAll home out) (append_assoc words (kv ∷ []) env) (
        push_read (parts ++ (key ++ (b'=' ∷ shell_quote value)) ∷ []) (words ++ kv ∷ []) env out
          (ReadsAll-append home parts words _ kv p (Reads-assignment kv key value e)) rest)

  pub Reads-inert :
      (c : ℕ) (s : Text) → all (λ d. not (is_special d)) (c ∷ s) ≡ true → Reads home (c ∷ s) (c ∷ s)
  Reads-inert c s h = record {
    starts = unfold is_special in ground arith;
    adds = Adds-inert home (c ∷ s) h;
  }

-- `push_env_prefix` refuses what `validate_env_entries` refuses, with the same error.
abbrev pub Agrees : Result EnvError (Unit {0}) → Result EnvError (List Text) → Type 0
Agrees (ok _) r = (out : List Text) × (r ≡ ok out)
Agrees (err e) r = r ≡ err e

pub push_env_prefix-Agrees :
    (parts env : List Text) → Agrees (validate_env_entries env) (push_env_prefix parts env)
unfolding push_env_prefix validate_env_entries
push_env_prefix-Agrees parts [] = (parts, refl)
push_env_prefix-Agrees parts (kv ∷ env) =
    go (split_env kv)
      (λ key value. push_env_prefix-Agrees (parts ++ (key ++ (b'=' ∷ shell_quote value)) ∷ []) env)
  where
    go :
        (m : Result EnvError (Text × Text))
        → ((key value : Text)
            → Agrees
                (validate_env_entries env)
                (push_env_prefix (parts ++ (key ++ (b'=' ∷ shell_quote value)) ∷ []) env))
        → Agrees
            (m >>= λ _. validate_env_entries env)
            (m >>= λ p. push_env_prefix (parts ++ (p.0 ++ (b'=' ∷ shell_quote p.1)) ∷ []) env)
    go (ok (key, value)) ih = ih key value
    go (err e) ih = refl
