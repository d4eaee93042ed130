-- ===== src/Rsync/Rolling.antt =====
-- src/rsync.rs: the sums of `rollsum`, and those of `roll` for the next window.
use cargo_remote.Prelude.{
  ℕ, suc, ◌+◌, ◌-◌, ◌*◌, ◌%◌, ◌^◌, ◌≤◌, ◌<◌, ◌≡◌, ap, ap₂, ◌∙◌, [], ◌∷◌, ◌++◌, Bytes, length, arith,
  All, length-append,
}
use cargo_remote.Rsync.Checksum.{u64_mod, rollsum, rollsum_from, roll}

-- The sums of rsync's definition, with no bound: Σ wᵢ and Σ (n − i) · wᵢ.
pub sum_a : Bytes → ℕ
sum_a [] = 0
sum_a (x ∷ w) = x + sum_a w

pub sum_b : Bytes → ℕ
sum_b [] = 0
sum_b (x ∷ w) = suc (length w) * x + sum_b w

-- One round of the second sum, with the reductions in between removed.
b_round : (b p t : ℕ) → ((b + (p % u64_mod)) % u64_mod + t) % u64_mod ≡ (b + (p + t)) % u64_mod
b_round b p t = omega arith

rollsum_from_lem :
    (n i a b : ℕ) (w : Bytes)
    → n ≡ i + length w
    → a < u64_mod
    → b < u64_mod
    → rollsum_from n i a b w ≡ ((a + sum_a w) % u64_mod, (b + sum_b w) % u64_mod)
unfolding rollsum_from sum_a sum_b
rollsum_from_lem n i a b [] h ha hb = ap₂ (λ s t. (s, t)) (omega arith) (omega arith)
rollsum_from_lem n i a b (x ∷ w) h ha hb =
    let e : n - i ≡ suc (length w) = omega arith in
    rw e (
      rollsum_from_lem n (i + 1) _ _ w (omega arith) (omega arith) (omega arith)
      ∙ ap₂ (λ s t. (s, t)) (omega arith) (b_round b (suc (length w) * x) (sum_b w)))

-- `rollsum` is the two sums modulo 2 ^ 64.
pub rollsum_sums : (w : Bytes) → rollsum w ≡ (sum_a w % u64_mod, sum_b w % u64_mod)
unfolding rollsum
rollsum_sums w =
    rollsum_from_lem (length w) 0 0 0 w (omega arith) (omega arith) (omega arith)
    ∙ ap₂ (λ s t. (s, t)) (omega arith) (omega arith)

sum_a-append : (w : Bytes) (y : ℕ) → sum_a (w ++ y ∷ []) ≡ sum_a w + y
unfolding sum_a
sum_a-append [] y = omega arith
sum_a-append (x ∷ w) y = omega (arith, sum_a-append w y)

sum_b-append : (w : Bytes) (y : ℕ) → sum_b (w ++ y ∷ []) ≡ sum_b w + sum_a w + y
unfolding sum_b sum_a
sum_b-append [] y = omega arith
sum_b-append (x ∷ w) y =
    let e = length-append w (y ∷ []) in omega (arith, sum_b-append w y, ap (λ (t : ℕ). suc t * x) e)

-- Rolling the sums of a window gives the sums of the window one byte on.
pub roll-rollsum :
    (x y : ℕ) (w : Bytes)
    → x < 256
    → roll (rollsum (x ∷ w)).0 (rollsum (x ∷ w)).1 x y (length (x ∷ w)) ≡ rollsum (w ++ y ∷ [])
unfolding roll sum_a sum_b
roll-rollsum x y w hx =
    rw (rollsum_sums (x ∷ w), rollsum_sums (w ++ y ∷ []))
      (ap₂ (λ s t. (s, t)) (omega (arith, sum_a-append w y))
        (omega (arith, sum_a-append w y, sum_b-append w y)))

abbrev IsByte : ℕ → Type 0
IsByte x = x < 256

sum_a-le : (w : Bytes) → All IsByte w → sum_a w ≤ 255 * length w
unfolding sum_a
sum_a-le [] h = omega arith
sum_a-le (x ∷ w) (hx, h) = omega (arith, sum_a-le w h)

sum_b-le : (w : Bytes) → All IsByte w → sum_b w ≤ 255 * (length w * length w)
unfolding sum_b
sum_b-le [] h = omega arith
sum_b-le (x ∷ w) (hx, h) =
    let p : suc (length w) * x ≤ suc (length w) * 255 = grind arith in
    omega (arith, p, sum_b-le w h)

square_le : (n m : ℕ) → n ≤ m → n * n ≤ m * m
square_le n m h = grind arith

-- For a window of bytes that is no longer than the largest block, nothing wraps around: the
-- checksum is the two sums themselves.
rollsum_exact : (w : Bytes) → All IsByte w → length w ≤ 2 ^ 20 → rollsum w ≡ (sum_a w, sum_b w)
rollsum_exact w h fits =
    let q : length w * length w ≤ 2 ^ 40 = square_le (length w) (2 ^ 20) fits in
    rollsum_sums w
    ∙ ap₂ (λ s t. (s, t)) (omega (arith, sum_a-le w h)) (omega (arith, q, sum_b-le w h))
