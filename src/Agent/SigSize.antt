-- ===== src/Agent/SigSize.antt =====
-- src/agent.rs and src/rsync.rs: `check_sig_size` and the signatures that `signature` makes.
use cargo_remote.Prelude.{
  ℕ, zero, suc, ◌+◌, ◌-◌, ◌*◌, ◌/◌, ◌^◌, ◌≤◌, ◌<◌, max, min, ◌≡◌, refl, List, [], ◌∷◌, ◌++◌, map,
  Bytes, ok, arith, length, drop, length-append, length-take, length-drop, le→leb, leb→le, leb, ap,
  ◌∙◌, Bool-cases, inl, inr, drop-eq_nil,
}
use native.Mathlib.Nat.{suc-mul, zero-mul, le-div_iff_mul-le}
use cargo_remote.Prelude.LeBytes.{to_le_bytes, length-to_le_bytes}
use cargo_remote.Rsync.Checksum.{
  chunks_from, chunks, strong, block_sig, signature, strong_len, u64_mod,
}
use cargo_remote.Rsync.Wire.{record_bytes, sig_to_bytes}
use cargo_remote.Agent.Paths.{check_sig_size}

no_chunks : (f n : ℕ) → chunks_from f n [] ≡ []
unfolding chunks_from
no_chunks zero n = refl
no_chunks (suc f) n = refl

-- All blocks but the last are whole.
length-chunks_from :
    (f n : ℕ) (xs : Bytes) → 0 < n → length (chunks_from f n xs) * n ≤ length xs + (n - 1)
unfolding chunks_from
length-chunks_from zero n xs l = omega arith
length-chunks_from (suc f) n [] l = omega arith
length-chunks_from (suc f) n (x ∷ xs) l =
    let whole = x ∷ xs in
    let k = length (chunks_from f n (drop n whole)) in
    let ih = length-chunks_from f n (drop n whole) l in
    elim (Bool-cases (leb (length whole) n)) [
      | inl last ↦
          let gone = drop-eq_nil n whole (leb→le _ _ last) in
          let none_left : k ≡ 0 =
            ap (λ s. length (chunks_from f n s)) gone ∙ ap (λ c. length c) (no_chunks f n) in
          let zero_blocks : k * n ≡ 0 = ap (λ j. j * n) none_left ∙ zero-mul n in
          omega (arith, suc-mul k n, zero_blocks)
      | inr more ↦
          let long : n < length whole = ground arith in
          omega (arith, suc-mul k n, ih, length-drop n whole)
    ]

chunks_le_fuel : (f n : ℕ) (xs : Bytes) → length (chunks_from f n xs) ≤ f
unfolding chunks_from
chunks_le_fuel zero n xs = omega arith
chunks_le_fuel (suc f) n [] = omega arith
chunks_le_fuel (suc f) n (x ∷ xs) = omega (arith, chunks_le_fuel f n (drop n (x ∷ xs)))

module _ (digest : Bytes → Bytes) (digest_length : (w : Bytes) → 16 ≤ length (digest w)) where
  length-sig_to_bytes :
      (blocks : List Bytes)
      → length (sig_to_bytes (map (block_sig digest) blocks)) ≡ length blocks * 32
  unfolding sig_to_bytes block_sig strong
  length-sig_to_bytes [] = refl
  length-sig_to_bytes (c ∷ blocks) =
      let s = block_sig digest c in
      let rest = sig_to_bytes (map (block_sig digest) blocks) in
      omega (
        arith,
        length-append (record_bytes s) rest,
        length-sig_to_bytes blocks,
        length-append (to_le_bytes 8 s.a) (to_le_bytes 8 s.b ++ s.strong),
        length-append (to_le_bytes 8 s.b) s.strong,
        length-to_le_bytes 8 s.a,
        length-to_le_bytes 8 s.b,
        length-take strong_len (digest c),
        digest_length c,
      )

  -- The signature that an honest peer makes of a file passes the size check of the other side, for
  -- every block size but 0 and every file below 2 ^ 58 bytes. The digest has 16 bytes at least.
  pub check_sig_size-signature :
      (xs : Bytes) (block_len : ℕ)
      → 0 < block_len
      → length xs < 2 ^ 58
      → check_sig_size (length xs) block_len (length (sig_to_bytes (signature digest xs block_len)))
        ≡ ok tt
  unfolding check_sig_size signature chunks
  check_sig_size-signature xs block_len l small =
      let blocks = chunks_from (length xs) block_len xs in
      let count =
        (le-div_iff_mul-le {x = length blocks} {y = length xs + (block_len - 1)} l).1
          (length-chunks_from (length xs) block_len xs l) in
      let bytes = length-sig_to_bytes blocks in
      let n : max block_len 1 ≡ block_len = omega arith in
      let few = chunks_le_fuel (length xs) block_len xs in
      rw (
        n,
        le→leb (length (sig_to_bytes (map (block_sig digest) blocks)))
            (min ((length xs + (block_len - 1)) / block_len * 32) (u64_mod - 1)) (omega arith),
      )
