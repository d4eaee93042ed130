-- ===== src/Rsync/PatchBounds.antt =====
-- src/rsync.rs: `patch` on any delta, a hostile one included.
use cargo_remote.Prelude.{
  ℕ, zero, suc, ◌+◌, ◌-◌, ◌*◌, ◌^◌, ◌≤◌, ◌<◌, ◌≡◌, ◌≢◌, [], ◌∷◌, Bytes, Result, ok, err, ◌>>=◌, min,
  length, slice, take, drop, arith, subst, length-append, length-take, length-drop, ltb,
  if◌then◌else◌,
}
use cargo_remote.Prelude.LeBytes.{from_le_bytes}
use cargo_remote.Rsync.Checksum.{u64_mod, block_len_max}
use cargo_remote.Rsync.Patch.{
  PatchError, out_of_fuel, take_bytes, patch_copy, patch_literal, patch_op, patch_loop, patch,
}

-- What one successful operation of a delta may do, from the output `out` and `rest` bytes left.
abbrev pub Bounded : ℕ → Bytes → Bytes → Bytes × Bytes → Type 0
Bounded expected_len rest out (rest', out') =
    (length rest' ≤ length rest) × (length out ≤ length out') × (length out' ≤ expected_len)

abbrev Ends : ℕ → Bytes → Bytes → Result PatchError (Bytes × Bytes) → Type 0
Ends expected_len rest out (ok r) = Bounded expected_len rest out r
Ends expected_len rest out (err e) = e ≢ out_of_fuel

length-slice-le : (xs : Bytes) (i j : ℕ) → length (slice xs i j) ≤ j - i
length-slice-le xs i j = omega (arith, length-take (j - i) (drop i xs))

module _ (old : Bytes) (block_len expected_len : ℕ) where
  patch_copy-Ends :
      (rest out : Bytes)
      → Ends expected_len rest out (patch_copy old block_len expected_len rest out)
  unfolding patch_copy take_bytes
  patch_copy-Ends rest out =
      let start = from_le_bytes (take 4 rest) * block_len in
      let end =
        if ltb (start + block_len) u64_mod
        then min (start + block_len) (length old)
        else length old in
      ground (
        arith,
        length-drop 4 rest,
        length-slice-le old start end,
        length-append out (slice old start end),
      )

  patch_literal-Ends :
      (rest out : Bytes)
      → Ends expected_len rest out (patch_literal old block_len expected_len rest out)
  unfolding patch_literal take_bytes
  patch_literal-Ends rest out =
      let len = from_le_bytes (take 4 rest) in
      ground (
        arith,
        length-drop 4 rest,
        length-drop len (drop 4 rest),
        length-take len (drop 4 rest),
        length-append out (take len (drop 4 rest)),
      )

  patch_op-Ends :
      (op : ℕ) (rest out : Bytes)
      → Ends expected_len rest out (patch_op old block_len expected_len op rest out)
  unfolding patch_op
  patch_op-Ends op rest out = ground (arith, patch_copy-Ends rest out, patch_literal-Ends rest out)

  -- Every operation that `patch` carries out takes nothing back from the output, keeps it within
  -- the announced length, and leaves no more of the delta than there was.
  pub patch_op-Bounded :
      (op : ℕ) (rest out : Bytes) (r : Bytes × Bytes)
      → patch_op old block_len expected_len op rest out ≡ ok r
      → Bounded expected_len rest out r
  patch_op-Bounded op rest out r e =
      subst (Ends expected_len rest out) e (patch_op-Ends op rest out)

  patch_loop_ends :
      (fuel : ℕ) (rest out : Bytes)
      → length rest ≤ fuel
      → patch_loop old block_len expected_len fuel rest out ≢ err out_of_fuel
  unfolding patch_loop
  patch_loop_ends zero [] out h = cc
  patch_loop_ends (suc fuel) [] out h = cc
  patch_loop_ends zero (op ∷ rest) out h = absurd (omega arith)
  patch_loop_ends (suc fuel) (op ∷ rest) out h =
      go (patch_op old block_len expected_len op rest out) (patch_op-Ends op rest out)
        (patch_loop_ends fuel)
    where
      go :
          (m : Result PatchError (Bytes × Bytes))
          → Ends expected_len rest out m
          → ((rest' out' : Bytes)
              → length rest' ≤ fuel
              → patch_loop old block_len expected_len fuel rest' out' ≢ err out_of_fuel)
          → (m >>= λ r. patch_loop old block_len expected_len fuel r.0 r.1) ≢ err out_of_fuel
      go (err e) d ih = λ p. d (cc)
      go (ok (rest', out')) d ih = ih rest' out' (omega arith)

-- `patch` ends on every old file, delta, block size and announced length: with as much fuel as
-- the delta has bytes its loop never runs out.
pub patch_ends :
    (old delta : Bytes) (block_len expected_len : ℕ)
    → patch old delta block_len expected_len ≢ err out_of_fuel
unfolding patch
patch_ends old delta block_len expected_len =
    ground (arith, patch_loop_ends old block_len expected_len (length delta) delta [])

-- Where `patch` succeeds the block size was between 1 and 2 ^ 20, and the new file has the length
-- that was announced.
patch_block_len :
    (old delta : Bytes) (block_len expected_len : ℕ) (new : Bytes)
    → patch old delta block_len expected_len ≡ ok new
    → (0 < block_len) × (block_len ≤ 2 ^ 20) × (length new ≡ expected_len)
unfolding patch
patch_block_len old delta block_len expected_len new h = ground (arith, block_len_max)
