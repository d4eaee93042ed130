-- ===== src/Progress/Lines.antt =====
-- src/progress.rs: the width of what is drawn.
use cargo_remote.Prelude.{
  arith, ℕ, zero, suc, ◌+◌, ◌-◌, ◌≤◌, ◌<◌, min, ◌≡◌, refl, sym, ap, ◌∙◌, [], ◌∷◌, ◌++◌, Text, Bool,
  true, Option, none, some, if◌then◌else◌, ltb, length, take, replicate, length-append,
  append_assoc, take-append_left,
}
use cargo_remote.Progress.{
  Progress, Floats, fit, filled_part, filled_cells, bar, counts, known_total, line_of, render,
}

length-replicate : (n c : ℕ) → length (replicate n c) ≡ n
length-replicate zero c = refl
length-replicate (suc n) c = ap suc (length-replicate n c)

filled_part-length : (filled width : ℕ) → length (filled_part filled width) ≡ width
unfolding filled_part
filled_part-length filled width = ground (
  arith,
  length-replicate width b'=',
  length-append {A = ℕ} (replicate filled b'=') (b'>' ∷ replicate (width - filled - 1) b' '),
  length-replicate filled b'=',
  length-replicate (width - filled - 1) b' ',
)

room_true : (n cols : ℕ) → n + 11 < cols → ltb (n + 3 + 8) cols ≡ true
room_true n cols h = ground arith

bar_width :
    (n cols part : ℕ)
    → part ≡ min (cols - (n + 3)) 30
    → n + 11 < cols
    → cols ≤ n + 33
    → n + suc (suc part) ≡ cols - 1
bar_width n cols part h room narrow = ground arith

one_more :
    (cols n m : ℕ) → n ≡ cols - 1 → m ≡ n + 1 → (k : ℕ) → k + 11 < cols → ltb (cols - 1) m ≡ true
one_more cols n m h e k room = ground arith

-- With a total, and room for a bar of less than its full thirty cells, the line is one
-- character too long for the terminal: what is drawn is the line without the bracket at its end.
pub render-bar_cut :
    (F : Floats) (p : Progress) (now t cols : ℕ)
    → p.status ≡ none
    → p.total ≡ some (suc t)
    → p.cols ≡ some cols
    → length (counts F p now) + 11 < cols
    → cols ≤ length (counts F p now) + 33
    → line_of F p now p.status ≡ render F p now ++ (b']' ∷ [])
unfolding render line_of known_total bar fit
render-bar_cut F p now t cols st total width room narrow =
    ap whole st
    ∙ with_bar
    ∙ ap (λ l. l ++ (b']' ∷ []))
        (sym (
          ap (fit p.cols) (ap whole st ∙ with_bar)
          ∙ ap (λ o. fit o (front ++ (b']' ∷ []))) width
          ∙ cut))
  where
    s : Text
    s = counts F p now

    cells : ℕ
    cells = min (cols - (length s + 3)) 30

    part : Text
    part = filled_part (filled_cells p.done (suc t) cells) cells

    front : Text
    front = s ++ (b' ' ∷ (b'[' ∷ part))

    whole : Option Text → Text
    whole o = line_of F p now o

    behind : Bool → Text
    behind b = if b then b' ' ∷ (b'[' ∷ (part ++ (b']' ∷ []))) else []

    roomy : ltb (length s + 3 + 8) cols ≡ true
    roomy = room_true (length s) cols room

    with_bar : whole none ≡ front ++ (b']' ∷ [])
    with_bar =
        ap (λ o. s ++ bar p.done (known_total o) p.cols (length s + 3)) total
        ∙ ap (λ o. s ++ bar p.done (some (suc t)) o (length s + 3)) width
        ∙ ap (λ b. s ++ behind b) roomy
        ∙ sym (append_assoc s (b' ' ∷ (b'[' ∷ part)) (b']' ∷ []))

    front_length : length front ≡ cols - 1
    front_length =
        length-append s (b' ' ∷ (b'[' ∷ part))
        ∙ bar_width (length s) cols (length part)
            (filled_part-length (filled_cells p.done (suc t) cells) cells) room narrow

    too_long : ltb (cols - 1) (length (front ++ (b']' ∷ []))) ≡ true
    too_long =
        one_more cols (length front) _ front_length (length-append front (b']' ∷ [])) (length s)
          room

    cut : fit (some cols) (front ++ (b']' ∷ [])) ≡ front
    cut =
        ap (λ b. if b then take (cols - 1) (front ++ (b']' ∷ [])) else (front ++ (b']' ∷ [])))
          too_long
        ∙ take-append_left (cols - 1) front (b']' ∷ []) (sym front_length)
