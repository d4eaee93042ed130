-- ===== src/Shell/Quoting.antt =====
-- src/runner.rs: `shell_quote` and `shell_join` against the reader of Shell/Reader.
use cargo_remote.Prelude.{
  ℕ, ◌<◌, ◌≡◌, ◌≢◌, refl, ap, ◌∙◌, List, [], ◌∷◌, ◌++◌, map, Text, codes, true, false, not, ◌&&◌,
  ◌||◌, Option, none, some, all, is_empty, arith, append_assoc, append-nil, Bool-cases, inl, inr,
  true_below, true_below-at,
}
use mathlib.Core.List.{cons-ne-nil}
use cargo_remote.Shell.{replace, join, is_plain, shell_quote, shell_join}
use cargo_remote.Shell.Reader.{
  Token, word, gap, plain, single, Reader, is_special, ◌>>=◌, read_plain, read_mode, read_all,
  close, sh_read,
}

plain_table : true_below (λ c. not (is_plain c) || not (is_special c)) 128 ≡ true
unfolding true_below is_plain is_special
plain_table = refl

plain_below : (c : ℕ) → is_plain c ≡ true → c < 128
unfolding is_plain
plain_below c h = ground arith

pub not_special : (c : ℕ) → is_plain c ≡ true → is_special c ≡ false
not_special c h = ground (
  arith,
  true_below-at (λ c. not (is_plain c) || not (is_special c)) 128 c (plain_below c h) plain_table,
)

module _ (home : Text) where
  read_all-append :
      (r : Reader) (s t : Text)
      → read_all home r (s ++ t) ≡ (read_all home r s >>= λ r'. read_all home r' t)
  unfolding read_all
  read_all-append r [] t = refl
  read_all-append r (c ∷ s) t =
      go (read_mode home r.mode r.done r.text c) (λ r'. read_all-append r' s t)
    where
      go :
          (m : Option Reader)
          → ((r' : Reader)
              → read_all home r' (s ++ t) ≡ (read_all home r' s >>= λ r''. read_all home r'' t))
          → (m >>= λ r'. read_all home r' (s ++ t))
            ≡ ((m >>= λ r'. read_all home r' s) >>= λ r'. read_all home r' t)
      go none ih = refl
      go (some r') ih = ih r'

  read_plain_inert :
      (done : List Token) (w : Text) (c : ℕ)
      → is_special c ≡ false
      → read_plain home done w c ≡ some (record { done = done; mode = plain; text = w ++ c ∷ [] })
  unfolding read_plain is_special
  read_plain_inert done w c h = ground arith

  -- Read inside a word, the text `s` adds `w` to it.
  abbrev pub Adds : Text → Text → Type 0
  Adds s w =
      (done : List Token) (u : Text)
      → read_all home (record { done = done; mode = plain; text = u }) s
        ≡ some (record { done = done; mode = plain; text = u ++ w })

  pub Adds-append : (s t v w : Text) → Adds s v → Adds t w → Adds (s ++ t) (v ++ w)
  Adds-append s t v w p q done u =
      read_all-append _ s t ∙ rw (p done u) (rw (q done (u ++ v)) (rw (append_assoc u v w)))

  pub Adds-inert : (s : Text) → all (λ c. not (is_special c)) s ≡ true → Adds s s
  unfolding read_all read_mode
  Adds-inert [] h done u = rw (append-nil u)
  Adds-inert (c ∷ s) h done u = ground (
    arith,
    read_plain_inert done u c,
    (λ (k : all (λ d. not (is_special d)) s ≡ true). Adds-inert s k done (u ++ c ∷ [])),
    append_assoc u (c ∷ []) s,
  )

  quoted_read :
      (s : Text) (done : List Token) (u : Text)
      → read_all home
          (record { done = done; mode = single; text = u })
          (replace b'\'' (codes "'\\''") s)
        ≡ some (record { done = done; mode = single; text = u ++ s })
  unfolding replace read_all read_mode read_plain is_special
  quoted_read [] done u = rw (append-nil u)
  quoted_read (c ∷ s) done u =
      ground (arith, quoted_read s done (u ++ c ∷ []), append_assoc u (c ∷ []) s)

  plain_text : (s : Text) → all is_plain s ≡ true → all (λ c. not (is_special c)) s ≡ true
  plain_text [] h = refl
  plain_text (c ∷ s) h = ground (arith, not_special c, plain_text s)

  quoted_word : (s : Text) → Adds (b'\'' ∷ (replace b'\'' (codes "'\\''") s ++ b'\'' ∷ [])) s
  unfolding read_all read_mode read_plain is_special
  quoted_word s done u =
      read_all-append _ (replace b'\'' (codes "'\\''") s) (b'\'' ∷ []) ∙ rw (quoted_read s done u)

  -- A quoted text adds exactly its own characters.
  pub Adds-shell_quote : (s : Text) → Adds (shell_quote s) s
  unfolding shell_quote
  Adds-shell_quote s = elim (Bool-cases (not (is_empty s) && all is_plain s)) [
    | inl e ↦ rw e (Adds-inert s (plain_text s (ground arith)))
    | inr e ↦ rw e (quoted_word s)
  ]

  -- A text that begins a word, and is read there as the word `w`.
  abbrev WordStart : Text → Type 0
  WordStart [] = ⊥
  WordStart (c ∷ s) = (c ≢ b' ') × (c ≢ b'&')

  shell_quote-WordStart : (s : Text) → WordStart (shell_quote s)
  unfolding shell_quote is_special
  shell_quote-WordStart [] = omega arith
  shell_quote-WordStart (c ∷ s) = elim (Bool-cases (all is_plain (c ∷ s))) [
    | inl e ↦ rw e (ground (arith, not_special c))
    | inr e ↦ rw e (omega arith)
  ]

  WordStart-append : (s t : Text) → WordStart s → WordStart (s ++ t)
  WordStart-append [] t h = absurd h
  WordStart-append (c ∷ s) t h = h

  pub record Reads (s w : Text) : Type 0 where
    pub starts : WordStart s
    pub adds : Adds s w

  pub Reads-shell_quote : (s : Text) → Reads (shell_quote s) s
  Reads-shell_quote s = record { starts = shell_quote-WordStart s; adds = Adds-shell_quote s }

  pub Reads-append : (s t v w : Text) → Reads s v → Adds t w → Reads (s ++ t) (v ++ w)
  Reads-append s t v w p q = record {
    starts = WordStart-append s t p.starts;
    adds = Adds-append s t v w p.adds q;
  }

  -- From a gap, a word and the space behind it.
  pub gap_word :
      (s w : Text) (done : List Token)
      → Reads s w
      → read_all home (record { done = done; mode = gap; text = [] }) s
        ≡ some (record { done = done; mode = plain; text = w })
  unfolding read_all read_mode
  gap_word [] w done p = absurd p.starts
  gap_word (c ∷ s) w done p =
      let h = p.adds done [] in let (no_space, no_amp) = p.starts in ground (arith, h)

  pub gap_word_space :
      (s w t : Text) (done : List Token)
      → Reads s w
      → read_all home (record { done = done; mode = gap; text = [] }) (s ++ (b' ' ∷ t))
        ≡ read_all home (record { done = done ++ word w ∷ []; mode = gap; text = [] }) t
  unfolding read_all read_mode read_plain
  gap_word_space s w t done p = read_all-append _ s (b' ' ∷ t) ∙ rw (gap_word s w done p)

  -- What is left of a line, read from a gap, with the tokens `done` before it.
  abbrev pub read_from : List Token → Text → Option (List Token)
  read_from done s = read_all home (record { done = done; mode = gap; text = [] }) s >>= λ r.
      close r.mode r.done r.text

  pub next_word :
      (s w t : Text) (done : List Token)
      → Reads s w
      → read_from done (s ++ (b' ' ∷ t)) ≡ read_from (done ++ word w ∷ []) t
  next_word s w t done p =
      ap (λ m. m >>= λ r. close r.mode r.done r.text) (gap_word_space s w t done p)

  -- The texts are read as the words, one by one.
  abbrev pub ReadsAll : List Text → List Text → Type 0
  ReadsAll [] [] = Unit {0}
  ReadsAll [] (w ∷ ws) = ⊥
  ReadsAll (s ∷ ss) [] = ⊥
  ReadsAll (s ∷ ss) (w ∷ ws) = Reads s w × ReadsAll ss ws

  pub ReadsAll-shell_quote : (ws : List Text) → ReadsAll (map shell_quote ws) ws
  ReadsAll-shell_quote [] = tt
  ReadsAll-shell_quote (w ∷ ws) = (Reads-shell_quote w, ReadsAll-shell_quote ws)

  pub ReadsAll-append :
      (ss ws : List Text) (s w : Text)
      → ReadsAll ss ws
      → Reads s w
      → ReadsAll (ss ++ s ∷ []) (ws ++ w ∷ [])
  ReadsAll-append [] [] s w h p = (p, tt)
  ReadsAll-append [] (w' ∷ ws) s w h p = absurd h
  ReadsAll-append (s' ∷ ss) [] s w h p = absurd h
  ReadsAll-append (s' ∷ ss) (w' ∷ ws) s w (q, h) p = (q, ReadsAll-append ss ws s w h p)

  pub read_join :
      (ss ws : List Text) (done : List Token)
      → ReadsAll ss ws
      → read_from done (join (codes " ") ss) ≡ some (done ++ map word ws)
  unfolding join close
  read_join [] [] done h = unfold read_all in rw append-nil
  read_join [] (w ∷ ws) done h = absurd h
  read_join (s ∷ ss) [] done h = absurd h
  read_join (s ∷ []) (w ∷ []) done (p, h) = rw (gap_word s w done p)
  read_join (s ∷ []) (w ∷ v ∷ ws) done (p, h) = absurd h
  read_join (s ∷ t ∷ ss) (w ∷ []) done (p, h) = absurd h
  read_join (s ∷ t ∷ ss) (w ∷ v ∷ ws) done (p, h) =
      rw (gap_word_space s w (join (codes " ") (t ∷ ss)) done p) (
        read_join (t ∷ ss) (v ∷ ws) (done ++ word w ∷ []) h
        ∙ ap some (append_assoc done (word w ∷ []) (map word (v ∷ ws))))

  -- The same for a list of words with a space behind it, when the line goes on.
  pub read_join_space :
      (ss ws : List Text) (rest : Text) (done : List Token)
      → ss ≢ []
      → ReadsAll ss ws
      → read_from done (join (codes " ") ss ++ (b' ' ∷ rest)) ≡ read_from (done ++ map word ws) rest
  unfolding join
  read_join_space [] ws rest done ne h = absurd (ne refl)
  read_join_space (s ∷ ss) [] rest done ne h = absurd h
  read_join_space (s ∷ []) (w ∷ []) rest done ne (p, h) = rw (gap_word_space s w rest done p)
  read_join_space (s ∷ []) (w ∷ v ∷ ws) rest done ne (p, h) = absurd h
  read_join_space (s ∷ t ∷ ss) (w ∷ []) rest done ne (p, h) = absurd h
  read_join_space (s ∷ t ∷ ss) (w ∷ v ∷ ws) rest done ne (p, h) =
      ap (read_from done) (append_assoc s _ (b' ' ∷ rest))
      ∙ next_word s w (join (codes " ") (t ∷ ss) ++ (b' ' ∷ rest)) done p
      ∙ read_join_space (t ∷ ss) (v ∷ ws) rest (done ++ word w ∷ []) (cons-ne-nil t ss) h
      ∙ ap (λ d. read_from d rest) (append_assoc done (word w ∷ []) (map word (v ∷ ws)))

  -- Whatever the words hold, a shell reads `shell_join` of them as exactly those words.
  pub sh_read-shell_join : (ws : List Text) → sh_read home (shell_join ws) ≡ some (map word ws)
  unfolding sh_read shell_join
  sh_read-shell_join ws = read_join (map shell_quote ws) ws [] (ReadsAll-shell_quote ws)
