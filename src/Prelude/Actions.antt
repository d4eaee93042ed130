-- ===== src/Prelude/Actions.antt =====
-- Code that changes a state and may fail: `?` between two pieces of it, and what it keeps.
use mathlib.Core.Path.{◌≡◌, refl}
use cargo_remote.Prelude.Results.{Result, ok, err}

abbrev pub Action : Type 0 → Type 0 → Type 0 → Type 0
Action E S A = S → Result E A × S

unfoldable pub go_on : {E S A B : Type 0} → Result E A → S → (A → Action E S B) → Result E B × S
go_on (ok a) s k = k a s
go_on (err e) s k = (err e, s)

infixl 5 ◌>>=◌ ◌>>◌
abbrev pub ◌>>=◌ : {E S A B : Type 0} → Action E S A → (A → Action E S B) → Action E S B
◌>>=◌ m k s = go_on (m s).0 (m s).1 k

abbrev pub ◌>>◌ : {E S B : Type 0} → Action E S (Unit {0}) → Action E S B → Action E S B
m >> k = m >>= λ _. k

abbrev pub pure : {E S A : Type 0} → A → Action E S A
pure a s = (ok a, s)

abbrev pub lift : {E S A : Type 0} → Result E A → Action E S A
lift r s = (r, s)

-- The state meets `I` after `m` when it did before, whatever the result.
abbrev pub Keeps : {E S A : Type 0} → (S → Type 0) → Action E S A → Type 0
Keeps {E} {S} I m = (s : S) → I s → I (m s).1

module _ {E S A B : Type 0} (I : S → Type 0) where
  pub go_on-Keeps :
      (r : Result E A) (s : S) (k : A → Action E S B)
      → ((a : A) → Keeps I (k a))
      → I s
      → I (go_on r s k).1
  unfolding go_on
  go_on-Keeps (ok a) s k h i = h a s i
  go_on-Keeps (err e) s k h i = i

  pub bind-Keeps :
      (m : Action E S A) (k : A → Action E S B)
      → Keeps I m
      → ((a : A) → Keeps I (k a))
      → Keeps I (m >>= k)
  bind-Keeps m k f g s i = go_on-Keeps (m s).0 (m s).1 k g (f s i)

-- Code that succeeded went through both of its parts.
pub go_on_ok :
    {E S A B : Type 0} {b : B} (r : Result E A) (s : S) (k : A → Action E S B)
    → (go_on r s k).0 ≡ ok b
    → (a : A) × ((r ≡ ok a) × (go_on r s k ≡ k a s))
unfolding go_on
go_on_ok (ok a) s k h = (a, (refl, refl))
go_on_ok (err e) s k h = cc
