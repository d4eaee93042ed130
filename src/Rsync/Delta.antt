-- ===== src/Rsync/Delta.antt =====
-- src/rsync.rs: `delta`, the sender's scan of the new file for blocks that the peer has.
use cargo_remote.Prelude.{
  ℕ, zero, suc, ◌+◌, ◌%◌, ◌^◌, List, [], ◌∷◌, ◌++◌, Bytes, Option, none, some, Bool, true, false,
  ◌&&◌, length, slice, get_elem?, take, drop, if◌then◌else◌, ◌==◌, leb, ltb, text_eq,
}
use cargo_remote.Prelude.LeBytes.{to_le_bytes}
use cargo_remote.Rsync.Checksum.{BlockSig, rollsum, roll, strong}

abbrev pub op_copy : ℕ
op_copy = 1

abbrev pub op_literal : ℕ
op_literal = 2

-- `by_roll`: for each pair of sums the indices of its blocks, in file order.
abbrev pub RollTable : Type 0
RollTable = List ((ℕ × ℕ) × List ℕ)

-- `by_roll.entry((a, b)).or_default().push(i)`
unfoldable pub push_index : ℕ → ℕ → ℕ → RollTable → RollTable
push_index a b i [] = ((a, b), i ∷ []) ∷ []
push_index a b i (((a', b'), ixs) ∷ table) =
    if (a == a') && (b == b')
    then ((a', b'), ixs ++ i ∷ []) ∷ table
    else ((a', b'), ixs) ∷ push_index a b i table

-- The loop that fills the table; an index is kept as a `u32`.
unfoldable pub index_sigs : ℕ → List BlockSig → RollTable → RollTable
index_sigs i [] table = table
index_sigs i (s ∷ sigs) table = index_sigs (i + 1) sigs (push_index s.a s.b (i % 2 ^ 32) table)

unfoldable pub candidates : ℕ → ℕ → RollTable → List ℕ
candidates a b [] = []
candidates a b (((a', b'), ixs) ∷ table) =
    if (a == a') && (b == b') then ixs else candidates a b table

-- `sigs[ix].strong == s`
unfoldable pub strong_at : List BlockSig → Bytes → ℕ → Bool
strong_at sigs s ix = elim (get_elem? sigs ix) [ none ↦ false | some g ↦ text_eq g.strong s ]

unfoldable pub find_strong : List BlockSig → Bytes → List ℕ → Option ℕ
find_strong sigs s [] = none
find_strong sigs s (ix ∷ ixs) = if strong_at sigs s ix then some ix else find_strong sigs s ixs

-- `emit_literal`; the length is cut to 32 bits by `as u32`.
unfoldable pub emit_literal : Bytes → Bytes → Bytes
emit_literal out [] = out
emit_literal out (c ∷ bytes) =
    out ++ op_literal ∷ (to_le_bytes 4 (length (c ∷ bytes)) ++ (c ∷ bytes))

-- The loop's variables.
pub record Scan : Type 0 where
  pub i : ℕ
  pub a : ℕ
  pub b : ℕ
  pub lit_start : ℕ
  pub out : Bytes

module _ (digest : Bytes → Bytes) (new : Bytes) (sigs : List BlockSig) (block_len : ℕ) where
  -- `hit`, for the table `by_roll`
  unfoldable pub find_hit : RollTable → Scan → Option ℕ
  find_hit table s =
      find_strong sigs (strong digest (slice new s.i (s.i + block_len))) (candidates s.a s.b table)

  -- The branch of a hit.
  unfoldable pub copy_block : ℕ → Scan → Scan
  copy_block ix s =
      let j = s.i + block_len in
      let sums = rollsum (slice new j (j + block_len)) in
      let more = leb (j + block_len) (length new) in
      record {
        i = j;
        a = if more then sums.0 else s.a;
        b = if more then sums.1 else s.b;
        lit_start = j;
        out = emit_literal s.out (slice new s.lit_start s.i) ++ op_copy ∷ to_le_bytes 4 ix;
      }

  -- `new[i]`, at an index that the loop has checked
  unfoldable pub byte_at : ℕ → ℕ
  byte_at i = elim (get_elem? new i) [ none ↦ 0 | some x ↦ x ]

  -- The branch of a miss: one byte on.
  unfoldable pub roll_on : Scan → Scan
  roll_on s =
      let sums = roll s.a s.b (byte_at s.i) (byte_at (s.i + block_len)) block_len in
      let more = ltb (s.i + block_len) (length new) in
      record s { i = s.i + 1; a = if more then sums.0 else s.a; b = if more then sums.1 else s.b }

  unfoldable pub scan_step : RollTable → Scan → Scan
  scan_step table s = elim (find_hit table s) [ none ↦ roll_on s | some ix ↦ copy_block ix s ]

  -- `while i + block_len <= new.len()`; `none` means that the fuel ran out.
  unfoldable pub scan_loop : ℕ → RollTable → Scan → Option Scan
  scan_loop zero table s = none
  scan_loop (suc f) table s = elim (leb (s.i + block_len) (length new)) [
    | false ↦ some s
    | true ↦ scan_loop f table (scan_step table s)
  ]

  unfoldable pub scan_start : Scan
  scan_start =
      let sums = rollsum (take block_len new) in
      record { i = 0; a = sums.0; b = sums.1; lit_start = 0; out = [] }

  -- the last literal
  unfoldable pub finish : Scan → Bytes
  finish s = emit_literal s.out (drop s.lit_start new)

  -- `delta` with the fuel as a parameter
  unfoldable pub delta_fuel : ℕ → Option Bytes
  delta_fuel fuel =
      if leb block_len (length new)
      then elim (scan_loop fuel (index_sigs 0 sigs []) scan_start) [
        | none ↦ none
        | some s ↦ some (finish s)
      ]
      else some (emit_literal [] new)

  -- A round moves `i` on by at least one byte when a block is not empty.
  unfoldable pub delta : Option Bytes
  delta = delta_fuel (length new + 2)
