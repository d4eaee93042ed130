-- ===== src/Rsync/RoundTrip/Pieces.antt =====
-- src/rsync.rs: a piece of a delta, and the output of `patch`.
use cargo_remote.Prelude.{
  ℕ, zero, suc, ◌+◌, ◌-◌, ◌*◌, ◌^◌, ◌≤◌, ◌<◌, ◌≡◌, refl, ap, ◌∙◌, sym, [], ◌∷◌, ◌++◌, Bytes, ok,
  min, length, slice, take, drop, arith, length-append, take-append_left, drop-append_left,
  append_assoc, append-nil, length-take, length-drop, take-eq-take,
}
use cargo_remote.Prelude.LeBytes.{to_le_bytes, length-to_le_bytes, from_le_bytes-to_le_bytes}
use cargo_remote.Rsync.Checksum.{u64_mod}
use cargo_remote.Rsync.Delta.{op_copy, op_literal, emit_literal}
use cargo_remote.Rsync.Patch.{take_bytes, patch_copy, patch_literal, patch_op, patch_loop}

take_bytes-append :
    (p rest : Bytes) (n : ℕ) → n ≡ length p → take_bytes (p ++ rest) n ≡ ok (p, rest)
unfolding take_bytes
take_bytes-append p rest n h =
    ground (arith, length-append p rest, take-append_left n p rest h, drop-append_left n p rest h)

-- The operation that `emit_literal` appends.
pub literal_op : Bytes → Bytes
literal_op [] = []
literal_op (c ∷ w) = op_literal ∷ (to_le_bytes 4 (length (c ∷ w)) ++ (c ∷ w))

pub emit_literal_lem : (out w : Bytes) → emit_literal out w ≡ out ++ literal_op w
unfolding emit_literal literal_op
emit_literal_lem out [] = sym (append-nil out)
emit_literal_lem out (c ∷ w) = refl

mul_le_mul : (a b c d : ℕ) → a ≤ b → c ≤ d → a * c ≤ b * d
mul_le_mul a b c d p q = grind arith

-- A block that a 32-bit index names ends below 2 ^ 64.
copy_end : (ix n : ℕ) → ix < 2 ^ 32 → n ≤ 2 ^ 20 → ix * n + n < u64_mod
copy_end ix n small limit =
    let p : suc ix * n ≤ 2 ^ 32 * 2 ^ 20 = mul_le_mul (suc ix) (2 ^ 32) n (2 ^ 20) small limit in
    omega (arith, p)

module _ (old : Bytes) (block_len expected_len : ℕ) where
  -- `patch` reads `d` at the output `x`, and goes on behind it at the output `y`.
  abbrev pub Emits : Bytes → Bytes → Bytes → Type 0
  Emits d x y =
      (fuel : ℕ) (tail : Bytes)
      → length (d ++ tail) ≤ fuel
      → (left : ℕ) × (length tail ≤ left)
        × (patch_loop old block_len expected_len fuel (d ++ tail) x
            ≡ patch_loop old block_len expected_len left tail y)

  pub Emits-nil : (x : Bytes) → Emits [] x x
  Emits-nil x fuel tail h = (fuel, h, refl)

  pub Emits-append : (d e x y z : Bytes) → Emits d x y → Emits e y z → Emits (d ++ e) x z
  Emits-append d e x y z p q fuel tail h =
      let assoc = append_assoc d e tail in
      let (left, fits, step) = p fuel (e ++ tail) (omega (arith, ap length assoc)) in
      let (left', fits', step') = q left tail fits in
      (left', fits', ap (λ t. patch_loop old block_len expected_len fuel t x) assoc ∙ step ∙ step')

  -- One operation, whatever follows it.
  Emits-op :
      (op : ℕ) (d x y : Bytes)
      → ((tail : Bytes) → patch_op old block_len expected_len op (d ++ tail) x ≡ ok (tail, y))
      → Emits (op ∷ d) x y
  unfolding patch_loop
  Emits-op op d x y run zero tail h = absurd (omega arith)
  Emits-op op d x y run (suc fuel) tail h =
      (fuel, omega (arith, length-append d tail), rw (run tail))

  patch_literal_run :
      (w x tail : Bytes)
      → length w < 2 ^ 32
      → length x + length w ≤ expected_len
      → patch_literal old block_len expected_len ((to_le_bytes 4 (length w) ++ w) ++ tail) x
        ≡ ok (tail, x ++ w)
  unfolding patch_literal
  patch_literal_run w x tail small fits =
      rw
        (
          append_assoc (to_le_bytes 4 (length w)) w tail,
          take_bytes-append (to_le_bytes 4 (length w)) (w ++ tail) 4
              (sym (length-to_le_bytes 4 (length w))),
        )
        (rw (from_le_bytes-to_le_bytes 4 (length w) small)
          (rw (take_bytes-append w tail (length w) refl) (ground arith)))

  pub Emits-literal_op :
      (w x : Bytes)
      → length w < 2 ^ 32
      → length x + length w ≤ expected_len
      → Emits (literal_op w) x (x ++ w)
  unfolding literal_op
  Emits-literal_op [] x small fits = rw append-nil (Emits-nil x)
  Emits-literal_op (c ∷ w) x small fits =
      Emits-op op_literal _ x (x ++ (c ∷ w))
        λ tail. unfold patch_op in patch_literal_run (c ∷ w) x tail small fits

  -- A copied block, up to the end of the old file.
  abbrev pub block_at : ℕ → Bytes
  block_at ix = take block_len (drop (ix * block_len) old)

  slice-block_at :
      (ix : ℕ)
      → slice old (ix * block_len) (min (ix * block_len + block_len) (length old)) ≡ block_at ix
  slice-block_at ix =
      take-eq-take _ block_len (drop (ix * block_len) old)
        (omega (arith, length-drop (ix * block_len) old))

  length-block_at : (ix : ℕ) → length (block_at ix) ≡ min block_len (length old - ix * block_len)
  length-block_at ix =
      omega
        (arith, length-take block_len (drop (ix * block_len) old), length-drop (ix * block_len) old)

  patch_copy_run :
      (ix : ℕ) (x tail : Bytes)
      → ix < 2 ^ 32
      → block_len ≤ 2 ^ 20
      → ix * block_len < length old
      → length x + length (block_at ix) ≤ expected_len
      → patch_copy old block_len expected_len (to_le_bytes 4 ix ++ tail) x
        ≡ ok (tail, x ++ block_at ix)
  unfolding patch_copy
  patch_copy_run ix x tail small limit inside fits =
      rw (take_bytes-append (to_le_bytes 4 ix) tail 4 (sym (length-to_le_bytes 4 ix))) (
        rw (from_le_bytes-to_le_bytes 4 ix small) (
          let start_lt : ix * block_len + block_len < u64_mod = copy_end ix block_len small limit in
          ground (arith, start_lt, slice-block_at ix, length-block_at ix)))

  pub Emits-copy :
      (ix : ℕ) (x : Bytes)
      → ix < 2 ^ 32
      → block_len ≤ 2 ^ 20
      → ix * block_len < length old
      → length x + length (block_at ix) ≤ expected_len
      → Emits (op_copy ∷ to_le_bytes 4 ix) x (x ++ block_at ix)
  Emits-copy ix x small limit inside fits =
      Emits-op op_copy _ x (x ++ block_at ix)
        λ tail. unfold patch_op in patch_copy_run ix x tail small limit inside fits

  patch_loop-nil :
      (fuel : ℕ) (out : Bytes) → patch_loop old block_len expected_len fuel [] out ≡ ok out
  unfolding patch_loop
  patch_loop-nil zero out = refl
  patch_loop-nil (suc fuel) out = refl

  -- A whole delta, with as much fuel as it has bytes.
  pub patch_loop_whole :
      (d y : Bytes) → Emits d [] y → patch_loop old block_len expected_len (length d) d [] ≡ ok y
  patch_loop_whole d y e =
      let (left, _, run) = e (length d) [] (omega (arith, ap length (append-nil d))) in
      ap (λ t. patch_loop old block_len expected_len (length d) t []) (sym (append-nil d))
      ∙ run
      ∙ patch_loop-nil left y
