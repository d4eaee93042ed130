-- ===== src/Progress/Rows.antt =====
-- src/progress.rs: a line that is drawn over another on the row of a terminal.
use cargo_remote.Prelude.{
  arith, ℕ, zero, suc, ◌+◌, ◌-◌, ◌≤◌, ◌≡◌, refl, sym, ap, ◌∙◌, ◌∷◌, ◌++◌, append_assoc, Text, false,
  length, drop, replicate, All-append, length-append, drop-append_left, subst,
}
use cargo_remote.Progress.{Progress}
use cargo_remote.Progress.Terminal.{
  Screen, typed, returns, returns-append, Blank, typed-return, replicate-Blank, drop-Blank,
  replicate-no_return,
}

-- The row holds `front` and then blanks only.
pub record Holds (front : Text) (screen : Screen) : Type 0 where
  pub behind : Text
  pub row_eq : screen.1 ≡ front ++ behind
  pub behind_blank : Blank behind

-- The line `front` is on the row, as long as the state has it, and nothing else.
pub record Shows (front : Text) (p : Progress) (screen : Screen) : Type 0 where
  pub front_length : length front ≡ p.last_len
  pub on_row : Holds front screen

over-Blank :
    (s row : Text) (n k : ℕ)
    → Blank (drop n row)
    → n ≤ length s + k
    → Blank (replicate k b' ' ++ drop (length s + k) row)
over-Blank s row n k b h =
    All-append _ _ _ (replicate-Blank k) (drop-Blank (length s + k) n row h b)

pub Shows-Blank :
    (front : Text) (p : Progress) (screen : Screen)
    → Shows front p screen
    → Blank (drop p.last_len screen.1)
Shows-Blank front p screen s =
    subst (λ row. Blank (drop p.last_len row)) (sym s.on_row.row_eq)
      (subst Blank (sym (drop-append_left p.last_len front s.on_row.behind (sym s.front_length)))
        s.on_row.behind_blank)

pub length-replicate : (n c : ℕ) → length (replicate n c) ≡ n
length-replicate zero c = refl
length-replicate (suc n) c = ap suc (length-replicate n c)

-- A carriage return, a line and the blanks that hide the rest of what was there.
pub overwrites :
    (front : Text) (p : Progress) (line : Text) (screen : Screen)
    → returns line ≡ false
    → Shows front p screen
    → Holds line (typed (13 ∷ (line ++ replicate (p.last_len - length line) b' ')) screen)
overwrites front p line (at, row) plain s = record {
  behind = replicate k b' ' ++ drop (length line + k) row;
  row_eq =
      ap (λ r. r.1)
        (typed-return (line ++ replicate k b' ') row at
          (returns-append line _ plain (replicate-no_return k)))
      ∙ append_assoc line (replicate k b' ') _
      ∙ ap (λ n. line ++ (replicate k b' ' ++ drop n row)) size;
  behind_blank = over-Blank line row p.last_len k (Shows-Blank front p (at, row) s) (ground arith);
}
  where
    k : ℕ
    k = p.last_len - length line

    size : length (line ++ replicate k b' ') ≡ length line + k
    size =
        length-append line (replicate k b' ') ∙ ap (λ n. length line + n) (length-replicate k b' ')
