-- ===== src/Progress/Terminal.antt =====
-- A row of a terminal, which src/progress.rs writes to: a carriage return goes to its first cell, and
-- any other character goes into the cell of the cursor, which moves on.
use cargo_remote.Prelude.{
  arith, ℕ, zero, suc, ◌+◌, ◌≤◌, ◌≡◌, refl, sym, ap, ◌∙◌, [], ◌∷◌, ◌++◌, Text, Bool, true, false,
  if◌then◌else◌, ◌==◌, length, drop, replicate, any, append_assoc, drop-drop, All, length-append,
}

unfoldable pub set_cell : ℕ → ℕ → Text → Text
set_cell zero c [] = c ∷ []
set_cell zero c (d ∷ row) = c ∷ row
set_cell (suc n) c [] = b' ' ∷ set_cell n c []
set_cell (suc n) c (d ∷ row) = d ∷ set_cell n c row

-- The cursor and the row.
abbrev pub Screen : Type 0
Screen = ℕ × Text

unfoldable pub typed : Text → Screen → Screen
unfolding set_cell
typed [] screen = screen
typed (c ∷ s) (at, row) = if c == 13 then typed s (0, row) else typed s (suc at, set_cell at c row)

abbrev pub returns : Text → Bool
returns s = any (λ c. c == 13) s

-- The cells are blank.
abbrev pub Blank : Text → Type 0
Blank row = All (λ c. c ≡ b' ') row

set_cell-append :
    (front row : Text) (c : ℕ)
    → set_cell (length front) c (front ++ row) ≡ front ++ (c ∷ drop 1 row)
unfolding set_cell
set_cell-append [] [] c = refl
set_cell-append [] (d ∷ row) c = refl
set_cell-append (f ∷ front) row c = ap (λ r. f ∷ r) (set_cell-append front row c)

typed_at :
    (s front row : Text)
    → returns s ≡ false
    → typed s (length front, front ++ row)
      ≡ (length front + length s, front ++ (s ++ drop (length s) row))
unfolding typed
typed_at [] front row h = ap (λ n. (n, front ++ row)) (ground arith)
typed_at (c ∷ s) front row h =
    go (c == 13) refl (typed_at s (front ++ c ∷ []) (drop 1 row) (ground arith))
  where
    next : suc (length front) ≡ length (front ++ c ∷ [])
    next = ground (arith, length-append front (c ∷ []))

    count : length (front ++ c ∷ []) + length s ≡ length front + length (c ∷ s)
    count = ground (arith, length-append front (c ∷ []))

    more : 1 + length s ≡ length (c ∷ s)
    more = omega arith

    content :
        (front ++ c ∷ []) ++ (s ++ drop (length s) (drop 1 row))
        ≡ front ++ ((c ∷ s) ++ drop (length (c ∷ s)) row)
    content =
        append_assoc front (c ∷ []) _
        ∙ ap (λ r. front ++ (c ∷ (s ++ r))) (drop-drop (length s) 1 row ∙ ap (λ n. drop n row) more)

    go :
        (b : Bool)
        → (c == 13) ≡ b
        → typed s (length (front ++ c ∷ []), (front ++ c ∷ []) ++ drop 1 row) ≡ (
          length (front ++ c ∷ []) + length s,
          (front ++ c ∷ []) ++ (s ++ drop (length s) (drop 1 row)),
        )
        → (if b
            then typed s (0, front ++ row)
            else typed s (suc (length front), set_cell (length front) c (front ++ row)))
          ≡ (length front + length (c ∷ s), front ++ ((c ∷ s) ++ drop (length (c ∷ s)) row))
    go true e rest = absurd (ground arith)
    go false e rest =
        ap (typed s) (λ i. (
          next i,
          (set_cell-append front row c ∙ sym (append_assoc front (c ∷ []) (drop 1 row))) i,
        ))
        ∙ rest
        ∙ λ i. (count i, content i)

-- A text without a carriage return lies over the row from its first cell on.
pub typed-return :
    (s row : Text) (at : ℕ)
    → returns s ≡ false
    → typed (13 ∷ s) (at, row) ≡ (length s, s ++ drop (length s) row)
unfolding typed
typed-return s row at h =
    typed_at s [] row h ∙ ap (λ n. (n, s ++ drop (length s) row)) (omega arith)

pub typed-append : (s t : Text) (screen : Screen) → typed (s ++ t) screen ≡ typed t (typed s screen)
unfolding typed
typed-append [] t screen = refl
typed-append (c ∷ s) t (at, row) = go (c == 13) (λ screen. typed-append s t screen)
  where
    go :
        (b : Bool)
        → ((screen : Screen) → typed (s ++ t) screen ≡ typed t (typed s screen))
        → (if b then typed (s ++ t) (0, row) else typed (s ++ t) (suc at, set_cell at c row))
          ≡ typed t (if b then typed s (0, row) else typed s (suc at, set_cell at c row))
    go true rest = rest (0, row)
    go false rest = rest (suc at, set_cell at c row)

pub replicate-Blank : (n : ℕ) → Blank (replicate n b' ')
replicate-Blank zero = tt
replicate-Blank (suc n) = (refl, replicate-Blank n)

drop_all-Blank : (n : ℕ) (row : Text) → Blank row → Blank (drop n row)
drop_all-Blank zero row b = b
drop_all-Blank (suc n) [] b = tt
drop_all-Blank (suc n) (c ∷ row) (_, b) = drop_all-Blank n row b

pub drop-Blank : (n m : ℕ) (row : Text) → m ≤ n → Blank (drop m row) → Blank (drop n row)
drop-Blank n zero row h b = drop_all-Blank n row b
drop-Blank zero (suc m) row h b = absurd (omega arith)
drop-Blank (suc n) (suc m) [] h b = tt
drop-Blank (suc n) (suc m) (c ∷ row) h b = drop-Blank n m row (omega arith) b

pub replicate-no_return : (n : ℕ) → returns (replicate n b' ') ≡ false
replicate-no_return zero = refl
replicate-no_return (suc n) = replicate-no_return n

pub returns-append : (s t : Text) → returns s ≡ false → returns t ≡ false → returns (s ++ t) ≡ false
returns-append [] t hs ht = ht
returns-append (c ∷ s) t hs ht = ground (arith, returns-append s t)
