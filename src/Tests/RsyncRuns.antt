-- ===== src/Tests/RsyncRuns.antt =====
-- src/rsync.rs at concrete files. The digest of these runs is the identity, which is free of
-- collisions for blocks of at most 16 bytes.
use cargo_remote.Prelude.{
  ℕ, ◌+◌, ◌-◌, ◌*◌, ◌≤◌, ◌≡◌, ◌≢◌, refl, sym, ◌∙◌, List, [], ◌∷◌, Bytes, some, none, ok, err,
  length, slice, take, drop, replicate, arith, take-eq_of_le, length-take,
}
use cargo_remote.Rsync.Checksum.{
  BlockSig, strong, signature, block_sig, rollsum, rollsum_from, roll, chunks, chunks_from,
}
use cargo_remote.Rsync.Rolling.{roll-rollsum}
use cargo_remote.Rsync.Wire.{sig_to_bytes, sig_from_bytes, sig_from_bytes-sig_to_bytes}
use cargo_remote.Rsync.Delta.{
  delta, delta_fuel, scan_loop, scan_step, scan_start, find_hit, copy_block, roll_on, byte_at,
  finish, index_sigs, push_index, candidates, strong_at, find_strong, emit_literal, op_literal,
}
use cargo_remote.Prelude.LeBytes.{to_le_bytes, from_le_bytes}
use cargo_remote.Rsync.Patch.{
  patch, patch_op, patch_literal, patch_copy, patch_loop, take_bytes, out_of_fuel, unknown_op,
  copy_range, expands,
}
use cargo_remote.Rsync.PatchBounds.{Bounded, patch_op-Bounded, patch_ends}
use cargo_remote.Rsync.RoundTrip.{NoCollision, patch-delta}
use cargo_remote.Rsync.Divergence.{delta_diverges}

abbrev old_file : Bytes
old_file = 1 ∷ 2 ∷ 3 ∷ 4 ∷ 5 ∷ []

abbrev new_file : Bytes
new_file = 9 ∷ 3 ∷ 4 ∷ 1 ∷ 2 ∷ 7 ∷ []

abbrev same : Bytes → Bytes
same w = w

strong_same : (w : Bytes) → length w ≤ 16 → strong same w ≡ w
unfolding strong
strong_same w h = take-eq_of_le 16 w h

NoCollision-same : (old new : Bytes) (n : ℕ) → n ≤ 16 → NoCollision same old new n
NoCollision-same old new n small i ix room inside h =
    let a : length (take n (drop (ix * n) old)) ≤ 16 =
      omega (arith, length-take n (drop (ix * n) old)) in
    let b : length (slice new i (i + n)) ≤ 16 =
      omega (arith, length-take (i + n - i) (drop i new)) in
    sym (strong_same _ a) ∙ h ∙ strong_same _ b

-- A literal, the second block, the first block, a literal.
delta_run :
    delta same new_file (signature same old_file 2) 2
    ≡ some
        (2 ∷ 1 ∷ 0 ∷ 0 ∷ 0 ∷ 9 ∷ 1 ∷ 1 ∷ 0 ∷ 0 ∷ 0 ∷ 1 ∷ 0 ∷ 0 ∷ 0 ∷ 0 ∷ 2 ∷ 1 ∷ 0 ∷ 0 ∷ 0 ∷ 7 ∷ [])
unfolding delta delta_fuel scan_loop scan_step scan_start find_hit copy_block roll_on byte_at finish
    index_sigs push_index candidates strong_at find_strong emit_literal signature block_sig chunks
    chunks_from rollsum rollsum_from roll strong to_le_bytes
delta_run = refl

corrupt :
    (patch old_file (99 ∷ 1 ∷ []) 2048 3 ≡ err (unknown_op 99))
    × (patch old_file (1 ∷ 5 ∷ 0 ∷ 0 ∷ 0 ∷ []) 2048 3 ≡ err copy_range)
    × (patch old_file (1 ∷ 0 ∷ 0 ∷ 0 ∷ 0 ∷ []) 2048 3 ≡ err expands)
unfolding patch patch_loop patch_op patch_copy take_bytes from_le_bytes
    cargo_remote.Rsync.Checksum.block_len_for
corrupt = (refl, refl, refl)

patch-delta_example :
    (d : Bytes) × (delta same new_file (signature same old_file 2) 2 ≡ some d)
    × (patch old_file d 2 (length new_file) ≡ ok new_file)
patch-delta_example =
    patch-delta same old_file new_file 2 (omega arith) (omega arith) (omega arith)
      (NoCollision-same old_file new_file 2 (omega arith))

roll-rollsum_example :
    roll (rollsum (1 ∷ 2 ∷ 3 ∷ [])).0 (rollsum (1 ∷ 2 ∷ 3 ∷ [])).1 1 4 3 ≡ rollsum (2 ∷ 3 ∷ 4 ∷ [])
roll-rollsum_example = roll-rollsum 1 4 (2 ∷ 3 ∷ []) (omega arith)

abbrev one_sig : List BlockSig
one_sig = record { a = 6; b = 10; strong = replicate 16 7 } ∷ []

sig_from_bytes-sig_to_bytes_example : sig_from_bytes (sig_to_bytes one_sig) ≡ ok one_sig
sig_from_bytes-sig_to_bytes_example = sig_from_bytes-sig_to_bytes one_sig (omega arith)

literal_run :
    patch_op old_file 2 4 op_literal (2 ∷ 0 ∷ 0 ∷ 0 ∷ 5 ∷ 6 ∷ 1 ∷ []) (8 ∷ [])
    ≡ ok (1 ∷ [], 8 ∷ 5 ∷ 6 ∷ [])
unfolding patch_op patch_literal take_bytes from_le_bytes
literal_run = refl

patch_op-Bounded_example :
    Bounded 4 (2 ∷ 0 ∷ 0 ∷ 0 ∷ 5 ∷ 6 ∷ 1 ∷ []) (8 ∷ []) (1 ∷ [], 8 ∷ 5 ∷ 6 ∷ [])
patch_op-Bounded_example =
    patch_op-Bounded old_file 2 4 op_literal (2 ∷ 0 ∷ 0 ∷ 0 ∷ 5 ∷ 6 ∷ 1 ∷ []) (8 ∷ [])
      (1 ∷ [], 8 ∷ 5 ∷ 6 ∷ []) literal_run

patch_ends_example : patch old_file (1 ∷ 0 ∷ 0 ∷ []) 2 4 ≢ err out_of_fuel
patch_ends_example = patch_ends old_file (1 ∷ 0 ∷ 0 ∷ []) 2 4

patch_run : patch old_file (1 ∷ 1 ∷ 0 ∷ 0 ∷ 0 ∷ []) 2 2 ≡ ok (3 ∷ 4 ∷ [])
unfolding patch patch_loop patch_op patch_copy take_bytes from_le_bytes
    cargo_remote.Rsync.Checksum.block_len_for
patch_run = refl

delta_diverges_example : delta_fuel same new_file (block_sig same [] ∷ []) 0 1000 ≡ none
delta_diverges_example = delta_diverges same new_file [] 1000
