-- ===== src/Shell/Reader.antt =====
-- How a POSIX shell reads a line, as far as these lines go: words, quotes, `"$HOME"` and `&&`.
-- A character that the shell would act on in any other way makes the reader refuse the line, so
-- an accepted line runs nothing but what its words say. This is the specification of quoting; it
-- translates no code of the repository.
use cargo_remote.Prelude.{
  ℕ, ◌≡◌, refl, List, [], ◌∷◌, ◌++◌, Text, codes, Bool, Option, none, some, if◌then◌else◌, ◌==◌,
  contains_char, text_eq, is_ascii_alphanumeric, ◌||◌, ◌&&◌,
}

pub data Token : Type 0 where
  word : Text → Token
  and_if : Token

pub data Mode : Type 0 where
  gap plain single double escaped ampersand : Mode
  variable : Text → Mode

-- The tokens so far, the mode, and the word in hand.
pub record Reader : Type 0 where
  pub done : List Token
  pub mode : Mode
  pub text : Text

-- What is special outside quotes.
unfoldable pub is_special : ℕ → Bool
is_special c = contains_char c (codes "|&;<>()$`\\\"' \t\n*?[]#~{}!^")

infixl 5 ◌>>=◌
abbrev pub ◌>>=◌ {ℓ κ} : {A : Type ℓ} {B : Type κ} → Option A → (A → Option B) → Option B
none >>= f = none
some a >>= f = f a

-- At the end of the line no quote may be open.
unfoldable pub close : Mode → List Token → Text → Option (List Token)
close gap done w = some done
close plain done w = some (done ++ word w ∷ [])
close _ done w = none

module _ (home : Text) where
  -- the words done, the word in hand, and the next character
  unfoldable pub read_plain : List Token → Text → ℕ → Option Reader
  read_plain done w c =
      if c == b' '
      then some (record { done = done ++ word w ∷ []; mode = gap; text = [] })
      else if c == b'\''
      then some (record { done = done; mode = single; text = w })
      else if c == b'"'
      then some (record { done = done; mode = double; text = w })
      else if c == b'\\'
      then some (record { done = done; mode = escaped; text = w })
      else if is_special c
      then none
      else some (record { done = done; mode = plain; text = w ++ c ∷ [] })

  unfoldable pub read_mode : Mode → List Token → Text → ℕ → Option Reader
  read_mode gap done w c =
      if c == b' '
      then some (record { done = done; mode = gap; text = [] })
      else if c == b'&'
      then some (record { done = done; mode = ampersand; text = [] })
      else read_plain done [] c
  read_mode plain done w c = read_plain done w c
  read_mode single done w c =
      if c == b'\''
      then some (record { done = done; mode = plain; text = w })
      else some (record { done = done; mode = single; text = w ++ c ∷ [] })
  read_mode double done w c =
      if c == b'"'
      then some (record { done = done; mode = plain; text = w })
      else if c == b'$'
      then some (record { done = done; mode = variable []; text = w })
      else if (c == b'`') || (c == b'\\')
      then none
      else some (record { done = done; mode = double; text = w ++ c ∷ [] })
  read_mode escaped done w c =
      if c == b'\n' then none else some (record { done = done; mode = plain; text = w ++ c ∷ [] })
  read_mode ampersand done w c =
      if c == b'&'
      then some (record { done = done ++ and_if ∷ []; mode = gap; text = [] })
      else none
  read_mode (variable name) done w c =
      if (c == b'"') && text_eq name (codes "HOME")
      then some (record { done = done; mode = plain; text = w ++ home })
      else if is_ascii_alphanumeric c || (c == b'_')
      then some (record { done = done; mode = variable (name ++ c ∷ []); text = w })
      else none

  unfoldable pub read_all : Reader → Text → Option Reader
  read_all r [] = some r
  read_all r (c ∷ s) = read_mode r.mode r.done r.text c >>= λ r'. read_all r' s

  -- The tokens of a line.
  unfoldable pub sh_read : Text → Option (List Token)
  sh_read line = read_all (record { done = []; mode = gap; text = [] }) line >>= λ r.
      close r.mode r.done r.text

injected : sh_read (codes "/h") (codes "cd x; id") ≡ none
unfolding sh_read read_all read_mode read_plain is_special close
injected = refl

two_commands :
    sh_read (codes "/h") (codes "cd \"$HOME\"/'a b' && ls")
    ≡ some (word (codes "cd") ∷ word (codes "/h/a b") ∷ and_if ∷ word (codes "ls") ∷ [])
unfolding sh_read read_all read_mode read_plain is_special close
two_commands = refl
