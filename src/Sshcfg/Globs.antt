-- ===== src/Sshcfg/Globs.antt =====
-- src/sshcfg.rs: the loop of `glob_match` comes to an end.
use cargo_remote.Prelude.{
  ℕ, zero, suc, ◌+◌, ◌*◌, ◌≤◌, ◌<◌, ◌≡◌, refl, [], ◌∷◌, Bytes, Bool, ◌||◌, Option, none, some, ◌==◌,
  length, arith, Bool-cases, inl, inr,
}
use native.Mathlib.Nat.{suc-mul, mul-le-mul_right}
use cargo_remote.Sshcfg.{
  Glob, Round, again, answer, backtrack, glob_round, glob_loop, glob_fuel, glob_match,
}

module _ (m n : ℕ) where
  -- How often the last star can still move, for a text of `n` bytes.
  abbrev moves : Option (Bytes × Bytes) → ℕ
  moves none = n + 1
  moves (some (q, t)) = length t

  abbrev size : Glob → ℕ
  size g = length g.p + length g.s + moves g.star * (m + n + 1)

  -- The parts of a state come from a pattern of `m` and a text of `n` bytes.
  abbrev StarFits : Bytes → Option (Bytes × Bytes) → Type 0
  StarFits s none = Unit {0}
  StarFits s (some (q, t)) = (length q ≤ m) × (length s ≤ length t) × (length t ≤ n)

  abbrev Fits : Glob → Type 0
  Fits g = (length g.p ≤ m) × (length g.s ≤ n) × StarFits g.s g.star

  -- A round answers or makes the state smaller.
  abbrev Shrinks : Glob → Round → Type 0
  Shrinks g (answer b) = Unit {0}
  Shrinks g (again h) = Fits h × (size h < size g)

  backtrack-Shrinks :
      (p s : Bytes) (c : ℕ) (star : Option (Bytes × Bytes))
      → Fits (record { p = p; s = c ∷ s; star = star })
      → Shrinks (record { p = p; s = c ∷ s; star = star }) (backtrack star)
  unfolding backtrack
  backtrack-Shrinks p s c none fits = tt
  backtrack-Shrinks p s c (some (q, [])) fits = tt
  backtrack-Shrinks p s c (some (q, x ∷ t)) (hp, hs, (hq, hst, ht)) = (
    (hq, omega arith, (hq, omega arith, omega arith)),
    omega (arith, suc-mul (length t) (m + n + 1)),
  )

  -- The text at the last star is at least as long as what is left.
  left_le_moves :
      (s : Bytes) (star : Option (Bytes × Bytes))
      → length s ≤ n
      → StarFits s star
      → length s ≤ moves star
  left_le_moves s none hs fits = omega arith
  left_le_moves s (some (q, t)) hs (hq, hst, ht) = hst

  shorter-StarFits :
      (c : ℕ) (s : Bytes) (star : Option (Bytes × Bytes)) → StarFits (c ∷ s) star → StarFits s star
  shorter-StarFits c s none fits = tt
  shorter-StarFits c s (some (q, t)) (hq, hst, ht) = (hq, omega arith, ht)

  glob_round-Shrinks :
      (p s : Bytes) (star : Option (Bytes × Bytes))
      → Fits (record { p = p; s = s; star = star })
      → Shrinks (record { p = p; s = s; star = star }) (glob_round p s star)
  unfolding glob_round
  glob_round-Shrinks p [] star fits = tt
  glob_round-Shrinks [] (c ∷ s) star fits = backtrack-Shrinks [] s c star fits
  glob_round-Shrinks (d ∷ p) (c ∷ s) star (hp, hs, fits) =
      elim (Bool-cases ((d == b'?') || (d == c))) [
        | inl e ↦ rw e ((omega arith, omega arith, shorter-StarFits c s star fits), omega arith)
        | inr e ↦ elim (Bool-cases (d == b'*')) [
          | inr f ↦ rw (e, f) (backtrack-Shrinks (d ∷ p) s c star (hp, hs, fits))
          | inl f ↦
              let fewer = mul-le-mul_right (m + n + 1) (left_le_moves (c ∷ s) star hs fits) in
              rw (e, f) ((omega arith, hs, (omega arith, omega arith, hs)), omega (arith, fewer))
        ]
      ]

  settles :
      (f : ℕ) (r : Round) (g : Glob)
      → Shrinks g r
      → size g < suc f
      → ((h : Glob) → Fits h → size h < f → (b : Bool) × (glob_loop f h ≡ some b))
      → (b : Bool) × (elim r [ answer b ↦ some b | again h ↦ glob_loop f h ] ≡ some b)
  settles f (answer b) g small l ih = (b, refl)
  settles f (again h) g (fits, small) l ih = ih h fits (omega arith)

  glob_loop_ends : (f : ℕ) (g : Glob) → Fits g → size g < f → (b : Bool) × (glob_loop f g ≡ some b)
  unfolding glob_loop
  glob_loop_ends zero g fits l = absurd (omega arith)
  glob_loop_ends (suc f) g fits l =
      settles f (glob_round g.p g.s g.star) g (glob_round-Shrinks g.p g.s g.star fits) l
        (glob_loop_ends f)

-- `glob_match` answers for every pattern and every text: the fuel, a product of their lengths, is
-- enough.
pub glob_match_ends : (p s : Bytes) → (b : Bool) × (glob_match p s ≡ some b)
unfolding glob_match
glob_match_ends p s =
    glob_loop_ends (length p) (length s) (glob_fuel p s) (record { p = p; s = s; star = none })
      (omega arith, omega arith, tt)
      (omega (arith, suc-mul (length s + 1) (length p + length s + 1)))
