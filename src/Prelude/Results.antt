-- ===== src/Prelude/Results.antt =====
-- `anyhow::Result` with an error type of the model's, `ensure!`, and `do` for it.
use mathlib.Core.Path.{◌≡◌, refl}
use mathlib.Core.Bool.{Bool, true, false}

pub data Result {ℓ} (E : Type 0) (A : Type ℓ) : Type ℓ where
  ok : A → Result E A
  err : E → Result E A

infixl 5 ◌>>=◌ ◌>>◌
abbrev pub ◌>>=◌ {ℓ κ} :
    {E : Type 0} {A : Type ℓ} {B : Type κ} → Result E A → (A → Result E B) → Result E B
ok a >>= f = f a
err e >>= f = err e

abbrev pub ◌>>◌ {ℓ} : {E : Type 0} {B : Type ℓ} → Result E (Unit {0}) → Result E B → Result E B
m >> k = m >>= λ _. k

-- `anyhow::ensure!`
abbrev pub ensure : {E : Type 0} → Bool → E → Result E (Unit {0})
ensure true e = ok tt
ensure false e = err e

-- What a successful chain went through.
pub bind_ok {ℓ κ} :
    {E : Type 0} {A : Type ℓ} {B : Type κ} {y : B} (m : Result E A) (k : A → Result E B)
    → ◌≡◌ {A = Result E B} (m >>= k) (ok y)
    → (x : A) × ((k x ≡ ok y) × (m ≡ ok x))
bind_ok (err why) k eq = cc
bind_ok (ok x) k eq = (x, (eq, refl))

pub ok-injective {ℓ} :
    {E : Type 0} {A : Type ℓ} {a b : A} → ◌≡◌ {A = Result E A} (ok a) (ok b) → a ≡ b
ok-injective h = cc

pub err-ne-ok {ℓ} :
    {E : Type 0} {A : Type ℓ} {e : E} {a : A} → ◌≡◌ {A = Result E A} (err e) (ok a) → ⊥
err-ne-ok h = cc

-- A check that stands before a result, when the result came.
pub ensure_ok {ℓ} :
    {E : Type 0} {A : Type ℓ} {x y : A} (test : Bool) (e : E)
    → ◌≡◌ {A = Result E A} (ensure test e >> ok x) (ok y)
    → (test ≡ true) × (x ≡ y)
ensure_ok true e h = (refl, ok-injective h)
ensure_ok false e h = absurd (err-ne-ok h)
