-- ===== src/Rsync/Sizes.antt =====
-- src/rsync.rs: the ranges of block sizes and of the parts of a signature.
use cargo_remote.Prelude.{
  ℕ, ◌+◌, ◌^◌, ◌≤◌, ◌<◌, List, [], ◌∷◌, Bytes, length, map, All, arith, length-take,
}
use cargo_remote.Rsync.Checksum.{
  isqrt, u64_mod, strong_len, block_len_for, rollsum_from, rollsum, chunks, strong, block_sig,
  signature, clamp,
}
use cargo_remote.Rsync.Wire.{IsSig}

clamp_range : (x : ℕ) → (2048 ≤ clamp x 2048 (2 ^ 20)) × (clamp x 2048 (2 ^ 20) ≤ 2 ^ 20)
unfolding clamp
clamp_range x = ground arith

pub block_len_for_range : (n : ℕ) → (2048 ≤ block_len_for n) × (block_len_for n ≤ 2 ^ 20)
unfolding block_len_for
block_len_for_range n = clamp_range (isqrt 32 n)

rollsum_from_fits :
    (n i a b : ℕ) (w : Bytes)
    → a < u64_mod
    → b < u64_mod
    → ((rollsum_from n i a b w).0 < u64_mod) × ((rollsum_from n i a b w).1 < u64_mod)
unfolding rollsum_from
rollsum_from_fits n i a b [] ha hb = (ha, hb)
rollsum_from_fits n i a b (x ∷ w) ha hb =
    rollsum_from_fits n (i + 1) _ _ w (omega arith) (omega arith)

module _ (digest : Bytes → Bytes) (digest_length : (w : Bytes) → 16 ≤ length (digest w)) where
  block_sig-IsSig : (c : Bytes) → IsSig (block_sig digest c)
  unfolding block_sig rollsum strong
  block_sig-IsSig c =
      let (a, b) = rollsum_from_fits (length c) 0 0 0 c (omega arith) (omega arith) in
      record {
        a_fits = a;
        b_fits = b;
        strong_fits = omega (arith, length-take strong_len (digest c), digest_length c);
      }

  map-IsSig : (blocks : List Bytes) → All IsSig (map (block_sig digest) blocks)
  map-IsSig [] = tt
  map-IsSig (c ∷ blocks) = (block_sig-IsSig c, map-IsSig blocks)

  -- The parts of a signature have the sizes of the wire.
  pub signature-IsSig : (xs : Bytes) (n : ℕ) → All IsSig (signature digest xs n)
  unfolding signature
  signature-IsSig xs n = map-IsSig (chunks xs n)
