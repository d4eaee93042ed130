-- ===== src/Runner/CommandLine.antt =====
-- src/runner.rs: `remote_cargo_words` against the reader of Shell/Reader.
use cargo_remote.Prelude.{
  ◌≡◌, refl, ap, sym, ◌∙◌, List, [], ◌∷◌, ◌++◌, map, Text, codes, Option, none, some, ok, err,
  if◌then◌else◌, is_empty, append_assoc, append-nil, ok-injective, bind_ok, ◌>>=◌, subst,
}
use mathlib.Core.List.{cons-ne-nil}
use cargo_remote.Shell.{
  shell_quote, shell_join, quote_remote_path, join, EnvError, push_env_prefix, validate_env_entries,
  is_valid_env_key,
}
use cargo_remote.Shell.Reader.{Token, word, and_if, sh_read, is_special, read_all, read_mode}
use cargo_remote.Shell.Quoting.{
  ReadsAll, Reads-append, Adds-shell_quote, read_from, next_word, read_join, read_join_space,
  ReadsAll-shell_quote,
}
use cargo_remote.Runner.{
  Context, remote_dir, remote_dir_q, cargo_program, env_parts, line_of, remote_cargo_words,
}
use cargo_remote.Shell.Entries.{
  expand_home, Reads-quote_remote_path, push_read, Reads-key, Reads-inert, Agrees,
  push_env_prefix-Agrees,
}

module _ (home : Text) where
  -- The words in front of the subcommand: the assignments, cargo, and the toolchain.
  abbrev pub rustflags_words : Option Text → List Text
  rustflags_words none = []
  rustflags_words (some rf) = (codes "RUSTFLAGS=" ++ rf) ∷ []

  abbrev pub env_words : Context → List Text
  env_words ctx = rustflags_words ctx.rustflags ++ ctx.env

  abbrev pub toolchain_words : Option Text → List Text
  toolchain_words none = []
  toolchain_words (some tc) = (codes "+" ++ tc) ∷ []

  -- What the line is meant to say.
  abbrev pub command_tokens : Context → List Text → List Token
  command_tokens ctx words =
      (word (codes "cd") ∷ word (expand_home home (remote_dir ctx)) ∷ and_if ∷ [])
      ++ (map word (env_words ctx)
          ++ (word (expand_home home ctx.cargo_path)
              ∷ (map word (toolchain_words ctx.toolchain) ++ map word words)))

  env_parts-ReadsAll :
      (ctx : Context) (parts : List Text)
      → env_parts ctx ≡ ok parts
      → ReadsAll home parts (env_words ctx)
  unfolding env_parts
  env_parts-ReadsAll ctx parts h = go ctx.rustflags h
    where
      go :
          (o : Option Text)
          → push_env_prefix
              (elim o [ none ↦ [] | some rf ↦ (codes "RUSTFLAGS=" ++ shell_quote rf) ∷ [] ])
              ctx.env
            ≡ ok parts
          → ReadsAll home parts (rustflags_words o ++ ctx.env)
      go none e = push_read home [] [] ctx.env parts tt e
      go (some rf) e =
          push_read home _ ((codes "RUSTFLAGS=" ++ rf) ∷ []) ctx.env parts
            (Reads-key home (codes "RUSTFLAGS") rf (unfold is_valid_env_key in refl), tt) e

  read_env :
      (parts ws : List Text) (rest : Text) (done : List Token)
      → ReadsAll home parts ws
      → read_from home done
          ((if is_empty parts then [] else join (codes " ") parts ++ codes " ") ++ rest)
        ≡ read_from home (done ++ map word ws) rest
  read_env [] [] rest done h = rw append-nil
  read_env [] (w ∷ ws) rest done h = absurd h
  read_env (p ∷ parts) ws rest done h =
      ap (read_from home done) (append_assoc (join (codes " ") (p ∷ parts)) (codes " ") rest)
      ∙ read_join_space home (p ∷ parts) ws rest done (cons-ne-nil p parts) h

  read_program :
      (ctx : Context) (rest : Text) (done : List Token)
      → read_from home done (cargo_program ctx ++ (codes " " ++ rest))
        ≡ read_from home
            (done
              ++ (word (expand_home home ctx.cargo_path)
                  ∷ map word (toolchain_words ctx.toolchain)))
            rest
  unfolding cargo_program
  read_program ctx rest done = go ctx.toolchain
    where
      go :
          (o : Option Text)
          → read_from home done (
              elim o [
                | some tc ↦ quote_remote_path ctx.cargo_path ++ (codes " +" ++ shell_quote tc)
                | none ↦ quote_remote_path ctx.cargo_path
              ]
              ++ (codes " " ++ rest))
            ≡ read_from home
                (done ++ (word (expand_home home ctx.cargo_path) ∷ map word (toolchain_words o)))
                rest
      go none =
          next_word home (quote_remote_path ctx.cargo_path) _ rest done
            (Reads-quote_remote_path home ctx.cargo_path)
      go (some tc) =
          ap (read_from home done) (
            append_assoc (quote_remote_path ctx.cargo_path) (codes " +" ++ shell_quote tc)
              (b' ' ∷ rest))
          ∙ next_word home (quote_remote_path ctx.cargo_path) _
              ((codes "+" ++ shell_quote tc) ++ (b' ' ∷ rest)) done
              (Reads-quote_remote_path home ctx.cargo_path)
          ∙ next_word home (codes "+" ++ shell_quote tc) (codes "+" ++ tc) rest _ (
              Reads-append home (codes "+") (shell_quote tc) (codes "+") tc
                (Reads-inert home b'+' [] (unfold is_special in refl)) (Adds-shell_quote home tc))
          ∙ ap (λ d. read_from home d rest)
              (append_assoc done (word (expand_home home ctx.cargo_path) ∷ []) _)

  read_and_if :
      (done : List Token) (t : Text)
      → read_from home done (codes "&& " ++ t) ≡ read_from home (done ++ and_if ∷ []) t
  unfolding read_all read_mode
  read_and_if done t = refl

  -- Whatever the directory, the environment, the toolchain, the path of cargo and the words hold: a
  -- shell reads the line that `remote_cargo_words` makes as `cd` into the remote directory, `&&`,
  -- the assignments, cargo, the toolchain and the words, each exactly as given, and nothing more.
  pub sh_read-remote_cargo_words :
      (ctx : Context) (words : List Text) (line : Text)
      → remote_cargo_words ctx words ≡ ok line
      → sh_read home line ≡ some (command_tokens ctx words)
  unfolding remote_cargo_words sh_read
  sh_read-remote_cargo_words ctx words line h =
      let (parts, (made, e)) = bind_ok (env_parts ctx) _ h in
      let cd = word (codes "cd") ∷ [] in
      let at = cd ++ word (expand_home home (remote_dir ctx)) ∷ [] in
      let env = map word (env_words ctx) in
      let program =
        word (expand_home home ctx.cargo_path) ∷ map word (toolchain_words ctx.toolchain) in
      let env_text = if is_empty parts then [] else join (codes " ") parts ++ codes " " in
      let words_text = codes " " ++ shell_join words in
      ap (sh_read home) (sym (ok-injective made))
      ∙ next_word home (codes "cd") (codes "cd") _ []
          (Reads-inert home b'c' (codes "d") (unfold is_special in refl))
      ∙ next_word home (remote_dir_q ctx) (expand_home home (remote_dir ctx)) _ cd
          (unfold remote_dir_q in Reads-quote_remote_path home (remote_dir ctx))
      ∙ read_and_if at (env_text ++ (cargo_program ctx ++ words_text))
      ∙ read_env parts (env_words ctx) (cargo_program ctx ++ words_text) (at ++ and_if ∷ [])
          (env_parts-ReadsAll ctx parts e)
      ∙ read_program ctx (shell_join words) _
      ∙ unfold shell_join in
        read_join home (map shell_quote words) words _ (ReadsAll-shell_quote home words)
        ∙ ap some (ap (λ t. (at ++ and_if ∷ []) ++ t) (append_assoc env program (map word words)))

-- With an environment that `validate_env_entries` accepts there is a line for every command, and a
-- shell reads it as `cd` into the remote directory, `&&`, the assignments, cargo, the toolchain and
-- the words, each exactly as given, and nothing more, whatever these texts hold.
pub remote_line :
    (home : Text) (ctx : Context) (words : List Text)
    → validate_env_entries ctx.env ≡ ok tt
    → (line : Text) × (remote_cargo_words ctx words ≡ ok line)
      × (sh_read home line ≡ some (command_tokens home ctx words))
unfolding remote_cargo_words
remote_line home ctx words valid =
    let (parts, e) =
      subst (λ r. Agrees r (env_parts ctx)) valid
        (unfold env_parts in push_env_prefix-Agrees _ ctx.env) in
    let made = ap (λ m. m >>= line_of ctx words) e in
    (_, made, sh_read-remote_cargo_words home ctx words _ made)

-- An entry that `validate_env_entries` refuses makes the command fail with the same error.
remote_line_refused :
    (ctx : Context) (words : List Text) (e : EnvError)
    → validate_env_entries ctx.env ≡ err e
    → remote_cargo_words ctx words ≡ err e
unfolding remote_cargo_words env_parts
remote_line_refused ctx words e invalid =
    let h = subst (λ r. Agrees r (env_parts ctx)) invalid (push_env_prefix-Agrees _ ctx.env) in rw h
