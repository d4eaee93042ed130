-- ===== src/Rsync/Patch.antt =====
-- src/rsync.rs: `take` and `patch`, the receiver's side. The delta is remote input. Its position
-- `p` is kept as the bytes that are left, `delta[p..]`; `usize` has 64 bits.
use cargo_remote.Prelude.{
  ℕ, zero, suc, ◌+◌, ◌-◌, ◌*◌, [], ◌∷◌, ◌++◌, Bytes, ◌&&◌, Result, ok, err, ◌>>=◌, ◌>>◌, ensure,
  min, length, slice, take, drop, if◌then◌else◌, ◌==◌, leb, ltb,
}
use cargo_remote.Prelude.LeBytes.{from_le_bytes}
use cargo_remote.Rsync.Checksum.{u64_mod, block_len_for}
use cargo_remote.Rsync.Delta.{op_copy, op_literal}

-- The errors of `patch`; `out_of_fuel` belongs to the model only.
pub data PatchError : Type 0 where
  block_len_range : ℕ → PatchError
  truncated copy_overflow copy_range expands out_of_fuel : PatchError
  unknown_op : ℕ → PatchError
  wrong_length : ℕ → ℕ → PatchError

-- `take`: the next `n` bytes of the delta, and what is left of it
unfoldable pub take_bytes : Bytes → ℕ → Result PatchError (Bytes × Bytes)
take_bytes rest n = if leb n (length rest) then ok (take n rest, drop n rest) else err truncated

module _ (old : Bytes) (block_len expected_len : ℕ) where
  -- the case `OP_COPY`; the result is the delta that is left and the output
  unfoldable pub patch_copy : Bytes → Bytes → Result PatchError (Bytes × Bytes)
  patch_copy rest out = do
    (ix, rest') ← take_bytes rest 4
    let start = from_le_bytes ix * block_len
    ensure (ltb start u64_mod) copy_overflow
    ensure (ltb start (length old)) copy_range
    let end =
        if ltb (start + block_len) u64_mod then min (start + block_len) (length old) else length old
    ensure (leb (length out + (end - start)) expected_len) expands
    ok (rest', out ++ slice old start end)

  -- the case `OP_LITERAL`
  unfoldable pub patch_literal : Bytes → Bytes → Result PatchError (Bytes × Bytes)
  patch_literal rest out = do
    (len, rest') ← take_bytes rest 4
    ensure (leb (length out + from_le_bytes len) expected_len) expands
    (bytes, rest'') ← take_bytes rest' (from_le_bytes len)
    ok (rest'', out ++ bytes)

  unfoldable pub patch_op : ℕ → Bytes → Bytes → Result PatchError (Bytes × Bytes)
  patch_op op rest out =
      if op == op_copy
      then patch_copy rest out
      else if op == op_literal
      then patch_literal rest out
      else err (unknown_op op)

  -- `while p < delta.len()`
  unfoldable pub patch_loop : ℕ → Bytes → Bytes → Result PatchError Bytes
  patch_loop fuel [] out = ok out
  patch_loop zero (op ∷ rest) out = err out_of_fuel
  patch_loop (suc fuel) (op ∷ rest) out = do
    (rest', out') ← patch_op op rest out
    patch_loop fuel rest' out'

-- A round takes at least one byte off the delta, so its length is fuel enough.
unfoldable pub patch : Bytes → Bytes → ℕ → ℕ → Result PatchError Bytes
patch old delta block_len expected_len = do
  ensure (ltb 0 block_len && leb block_len (block_len_for (u64_mod - 1)))
      (block_len_range block_len)
  out ← patch_loop old block_len expected_len (length delta) delta []
  ensure (length out == expected_len) (wrong_length (length out) expected_len)
  ok out
