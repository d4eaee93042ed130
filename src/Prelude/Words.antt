-- ===== src/Prelude/Words.antt =====
-- Texts cut into lines and words, as `str` does it: `trim`, `lines`, `split_whitespace` and `split`.
use Prim.Native.Nat.{ℕ}
use mathlib.Core.Bool.{Bool, ◌&&◌, ◌||◌}
use mathlib.Core.List.{List, [], ◌∷◌}
use cargo_remote.Prelude.Tests.{leb, ◌==◌, if◌then◌else◌}
use cargo_remote.Prelude.Strings.{Text, is_empty}

-- `char::is_whitespace`
unfoldable pub is_whitespace : ℕ → Bool
is_whitespace c =
    (leb 9 c && leb c 13)
    || ((c == 0x20)
        || ((c == 0x85)
            || ((c == 0xa0)
                || ((c == 0x1680)
                    || ((leb 0x2000 c && leb c 0x200a)
                        || ((c == 0x2028)
                            || ((c == 0x2029)
                                || ((c == 0x202f) || ((c == 0x205f) || (c == 0x3000))))))))))

unfoldable pub skip_spaces : Text → Text
unfolding is_whitespace
skip_spaces [] = []
skip_spaces (c ∷ s) = if is_whitespace c then skip_spaces s else c ∷ s

unfoldable pub drop_spaces : Text → Text
unfolding is_whitespace
drop_spaces [] = []
drop_spaces (c ∷ s) =
    let rest = drop_spaces s in if is_empty rest && is_whitespace c then [] else c ∷ rest

-- `s.trim()`
unfoldable pub trim : Text → Text
unfolding skip_spaces drop_spaces
trim s = drop_spaces (skip_spaces s)

-- The text before the first character that `at` holds of, and what follows each of them.
unfoldable pub split_at : (ℕ → Bool) → Text → Text × List Text
split_at at [] = ([], [])
split_at at (c ∷ s) = let (w, ws) = split_at at s in if at c then ([], w ∷ ws) else (c ∷ w, ws)

unfoldable pub strip_cr : Text → Text
strip_cr [] = []
strip_cr (c ∷ []) = if c == 13 then [] else c ∷ []
strip_cr (c ∷ d ∷ s) = c ∷ strip_cr (d ∷ s)

-- `text.lines()`: a line that ends in a newline loses a `\r` before it, and there is no empty one
-- behind the last newline.
unfoldable pub lines_of : Text → List Text → List Text
unfolding strip_cr
lines_of w [] = if is_empty w then [] else w ∷ []
lines_of w (v ∷ ws) = strip_cr w ∷ lines_of v ws

unfoldable pub lines : Text → List Text
unfolding split_at lines_of
lines text = let (w, ws) = split_at (λ c. c == 10) text in lines_of w ws

unfoldable pub nonempty : List Text → List Text
nonempty [] = []
nonempty (w ∷ ws) = let rest = nonempty ws in if is_empty w then rest else w ∷ rest

-- `split_whitespace`
unfoldable pub words : Text → List Text
unfolding split_at nonempty
words s = let (w, ws) = split_at is_whitespace s in nonempty (w ∷ ws)
