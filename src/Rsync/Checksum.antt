-- ===== src/Rsync/Checksum.antt =====
-- src/rsync.rs: block size, rolling checksum, strong hash and `signature`.
-- BLAKE2b is not part of the repository: `digest` stands for `Blake2b512::digest`.
use cargo_remote.Prelude.{
  ℕ, zero, suc, ◌+◌, ◌-◌, ◌*◌, ◌/◌, ◌%◌, ◌^◌, ◌≡◌, refl, List, [], ◌∷◌, map, Bytes, length, take,
  drop, if◌then◌else◌, ltb, leb,
}

abbrev pub u64_mod : ℕ
u64_mod = 2 ^ 64

-- `BLOCK_LEN` and `STRONG_LEN`
abbrev pub block_len_default : ℕ
block_len_default = 32 * 1024

abbrev pub strong_len : ℕ
strong_len = 16

-- `(len as f64).sqrt() as usize`, by binary digits. Below 2 ^ 52 the rounded root has the same
-- integer part, and above 2 ^ 40 both are cut to 2 ^ 20 by `block_len_for`.
unfoldable pub isqrt : ℕ → ℕ → ℕ
isqrt zero n = 0
isqrt (suc k) n = let r = 2 * isqrt k (n / 4) in if leb ((r + 1) * (r + 1)) n then r + 1 else r

-- `x.clamp(lo, hi)`
unfoldable pub clamp : ℕ → ℕ → ℕ → ℕ
clamp x lo hi = if ltb x lo then lo else if ltb hi x then hi else x

unfoldable pub block_len_for : ℕ → ℕ
unfolding isqrt clamp
block_len_for len = clamp (isqrt 32 len) 2048 (2 ^ 20)

pub record BlockSig : Type 0 where
  pub a : ℕ
  pub b : ℕ
  pub strong : Bytes

-- The loop of `rollsum`, in wrapping `u64` arithmetic.
unfoldable pub rollsum_from : ℕ → ℕ → ℕ → ℕ → Bytes → ℕ × ℕ
rollsum_from n i a b [] = (a, b)
rollsum_from n i a b (x ∷ w) =
    rollsum_from n (i + 1) ((a + x) % u64_mod) ((b + (((n - i) * x) % u64_mod)) % u64_mod) w

unfoldable pub rollsum : Bytes → ℕ × ℕ
rollsum w = rollsum_from (length w) 0 0 0 w

-- `roll`: drop `out_b`, append `in_b`, window length `n`; a subtraction wraps around.
unfoldable pub roll : ℕ → ℕ → ℕ → ℕ → ℕ → ℕ × ℕ
roll a b out_b in_b n =
    let a' = (a + u64_mod - out_b + in_b) % u64_mod in
    (a', (b + u64_mod - ((n * out_b) % u64_mod) + a') % u64_mod)

-- `data.chunks(n)`; each round takes at least one byte, so the length is fuel enough.
unfoldable pub chunks_from : ℕ → ℕ → Bytes → List Bytes
chunks_from zero n xs = []
chunks_from (suc f) n [] = []
chunks_from (suc f) n (x ∷ xs) = take n (x ∷ xs) ∷ chunks_from f n (drop n (x ∷ xs))

unfoldable pub chunks : Bytes → ℕ → List Bytes
chunks xs n = chunks_from (length xs) n xs

module _ (digest : Bytes → Bytes) where
  -- `strong`: the first 16 bytes of the digest
  unfoldable pub strong : Bytes → Bytes
  strong w = take strong_len (digest w)

  unfoldable pub block_sig : Bytes → BlockSig
  block_sig c = record { a = (rollsum c).0; b = (rollsum c).1; strong = strong c }

  unfoldable pub signature : Bytes → ℕ → List BlockSig
  signature xs block_len = map block_sig (chunks xs block_len)

limits :
    (block_len_for 0 ≡ 2048)
    × (block_len_for (10_000 * 10_000 + 5) ≡ 10_000)
    × (block_len_for (u64_mod - 1) ≡ 2 ^ 20)
unfolding block_len_for
limits = (refl, refl, refl)

sums : rollsum (1 ∷ 2 ∷ 3 ∷ []) ≡ (6, 10)
unfolding rollsum rollsum_from
sums = refl

-- The largest block size.
pub block_len_max : block_len_for (u64_mod - 1) ≡ 2 ^ 20
unfolding block_len_for
block_len_max = refl
