-- ===== src/Rsync/RoundTrip.antt =====
-- src/rsync.rs: `patch` of the receiver's old file with a delta that `delta` has made.
mod Pieces
mod Hits
use cargo_remote.Prelude.{
  ℕ, zero, suc, ◌+◌, ◌-◌, ◌*◌, ◌^◌, ◌≤◌, ◌<◌, ◌≡◌, refl, ap, ◌∙◌, sym, subst, List, [], ◌∷◌, ◌++◌,
  Bytes, Option, none, some, true, false, ok, length, slice, take, drop, arith, leb, if◌then◌else◌,
  Bool-cases, Option-cases, inl, inr, length-take, length-drop, take-append-slice, take-eq_of_le,
  leb→le,
}
use cargo_remote.Prelude.LeBytes.{to_le_bytes}
use cargo_remote.Rsync.Checksum.{strong, signature, rollsum, block_len_max}
use cargo_remote.Rsync.Delta.{
  op_copy, RollTable, index_sigs, Scan, find_hit, copy_block, roll_on, scan_step, scan_loop,
  scan_start, finish, delta, delta_fuel, emit_literal,
}
use cargo_remote.Rsync.Patch.{patch, patch_loop}
use cargo_remote.Rsync.RoundTrip.Pieces.{
  Emits, Emits-nil, Emits-append, Emits-literal_op, Emits-copy, literal_op, emit_literal_lem,
  patch_loop_whole,
}
use cargo_remote.Rsync.RoundTrip.Hits.{IsIndexTable, index_sigs-IsIndexTable, find_hit_found}

-- No window of the new file has the strong hash of a block of the old one without being equal
-- to it. (BLAKE2b promises that no such pair can be found.)
abbrev pub NoCollision : (Bytes → Bytes) → Bytes → Bytes → ℕ → Type 0
NoCollision digest old new n =
    (i ix : ℕ)
    → i + n ≤ length new
    → ix * n < length old
    → strong digest (take n (drop (ix * n) old)) ≡ strong digest (slice new i (i + n))
    → take n (drop (ix * n) old) ≡ slice new i (i + n)

module _ (digest : Bytes → Bytes) (old new : Bytes) (n : ℕ) (pos : 0 < n) (limit : n ≤ 2 ^ 20)
    (fits : length new < 2 ^ 32) (safe : NoCollision digest old new n) where
  record Inv (s : Scan) : Type 0 where
    before : s.lit_start ≤ s.i
    inside : s.i ≤ length new
    emitted : Emits old n (length new) s.out [] (take s.lit_start new)

  -- The bytes in hand, written as a literal, bring the output up to any later position.
  literal-Emits :
      (out : Bytes) (i j : ℕ)
      → i ≤ j
      → j ≤ length new
      → Emits old n (length new) out [] (take i new)
      → Emits old n (length new) (emit_literal out (slice new i j)) [] (take j new)
  literal-Emits out i j le inside e =
      let w = slice new i j in
      let whole = take-append-slice i j new le in
      let size_eq : length w ≡ j - i =
        omega (arith, length-take (j - i) (drop i new), length-drop i new) in
      let room : length (take i new) + length w ≤ length new =
        omega (arith, size_eq, length-take i new) in
      rw (emit_literal_lem out w) (
        subst (Emits old n (length new) (out ++ literal_op w) []) whole (
          Emits-append old n (length new) out (literal_op w) [] (take i new) (take i new ++ w) e
            (Emits-literal_op old n (length new) w (take i new) (omega arith) room)))

  copy-Inv :
      (table : RollTable) (s : Scan) (ix : ℕ)
      → IsIndexTable table
      → s.i + n ≤ length new
      → find_hit digest new (signature digest old n) n table s ≡ some ix
      → Inv s
      → Inv (copy_block digest new (signature digest old n) n ix s)
  unfolding copy_block
  copy-Inv table s ix ht room hit inv =
      let (small, inside, same) = find_hit_found digest new old n table s ix pos ht hit in
      let block = safe s.i ix room inside same in
      record {
        before = omega arith;
        inside = room;
        emitted =
            subst (Emits old n (length new) _ [])
              (ap (λ t. take s.i new ++ t) block
                ∙ take-append-slice s.i (s.i + n) new (omega arith))
              (Emits-append old n (length new) _ _ [] (take s.i new) _
                (literal-Emits s.out s.lit_start s.i inv.before inv.inside inv.emitted)
                (Emits-copy old n (length new) ix (take s.i new) small limit inside (
                  omega (
                    arith,
                    ap length block,
                    length-take s.i new,
                    length-take (s.i + n - s.i) (drop s.i new),
                    length-drop s.i new,
                  ))));
      }

  roll-Inv :
      (s : Scan)
      → s.i + n ≤ length new
      → Inv s
      → Inv (roll_on digest new (signature digest old n) n s)
  unfolding roll_on
  roll-Inv s room inv = record { before = omega arith; inside = omega arith; emitted = inv.emitted }

  step-Inv :
      (table : RollTable) (s : Scan)
      → IsIndexTable table
      → s.i + n ≤ length new
      → Inv s
      → Inv (scan_step digest new (signature digest old n) n table s)
        × (s.i < (scan_step digest new (signature digest old n) n table s).i)
  unfolding scan_step
  step-Inv table s ht room inv =
      elim (Option-cases (find_hit digest new (signature digest old n) n table s)) [
        | inl e ↦ rw (e, scan_step) (roll-Inv s room inv, unfold roll_on in omega arith)
        | inr (ix, e) ↦
            rw (e, scan_step) (copy-Inv table s ix ht room e inv, unfold copy_block in omega arith)
      ]

  loop-Inv :
      (fuel : ℕ) (table : RollTable) (s : Scan)
      → IsIndexTable table
      → length new - s.i < fuel
      → Inv s
      → (t : Scan) × (scan_loop digest new (signature digest old n) n fuel table s ≡ some t) × Inv t
  unfolding scan_loop
  loop-Inv zero table s ht enough inv = absurd (omega arith)
  loop-Inv (suc fuel) table s ht enough inv = elim (Bool-cases (leb (s.i + n) (length new))) [
    | inl more ↦
        let room = leb→le (s.i + n) (length new) more in
        let (kept, onward) = step-Inv table s ht room inv in
        rw (more, scan_loop) (loop-Inv fuel table _ ht (omega arith) kept)
    | inr done ↦ rw (done, scan_loop) (s, refl, inv)
  ]

  -- What the last literal leaves is the whole new file.
  finish-patch :
      (s : Scan)
      → Inv s
      → patch old (finish digest new (signature digest old n) n s) n (length new) ≡ ok new
  unfolding finish patch
  finish-patch s inv =
      let rest : slice new s.lit_start (length new) ≡ drop s.lit_start new =
        take-eq_of_le _ (drop s.lit_start new) (omega (arith, length-drop s.lit_start new)) in
      let all : take (length new) new ≡ new = take-eq_of_le _ new (omega arith) in
      let d = finish digest new (signature digest old n) n s in
      let piece =
        literal-Emits s.out s.lit_start (length new) (omega arith) (omega arith) inv.emitted in
      let piece' : Emits old n (length new) d [] new = subst (Emits old n (length new) d []) all (
        subst (λ t. Emits old n (length new) (emit_literal s.out t) [] (take (length new) new)) rest
          piece) in
      rw (patch_loop_whole old n (length new) d new piece', block_len_max) (ground arith)

  start-Inv : Inv (scan_start digest new (signature digest old n) n)
  unfolding scan_start
  start-Inv = record {
    before = omega arith;
    inside = omega arith;
    emitted = Emits-nil old n (length new) [];
  }

  -- With fuel for every position the scan ends, and `patch` makes the new file of its delta.
  patch-delta_fuel :
      (fuel : ℕ)
      → length new + 1 < fuel
      → (d : Bytes) × (delta_fuel digest new (signature digest old n) n fuel ≡ some d)
        × (patch old d n (length new) ≡ ok new)
  unfolding delta_fuel
  patch-delta_fuel fuel enough = elim (Bool-cases (leb n (length new))) [
    | inl long ↦
        let start = scan_start digest new (signature digest old n) n in
        let table = index_sigs 0 (signature digest old n) [] in
        let (s, run, inv) =
          loop-Inv fuel table start (index_sigs-IsIndexTable 0 (signature digest old n) [] tt)
            (omega arith) start-Inv in
        (finish digest new (signature digest old n) n s, rw (long, run), finish-patch s inv)
    | inr short ↦
        (emit_literal [] new, rw short, unfold scan_start finish in finish-patch _ start-Inv)
  ]

-- For every old and new file, block size in the range that `patch` takes and new file below
-- 4 GiB, and with no collision of the strong hash between a window of the new file and a block of
-- the old one: `delta` ends, and `patch` of the old file with that delta and the new length
-- succeeds with the new file.
pub patch-delta :
    (digest : Bytes → Bytes) (old new : Bytes) (n : ℕ)
    → 0 < n
    → n ≤ 2 ^ 20
    → length new < 2 ^ 32
    → NoCollision digest old new n
    → (d : Bytes) × (delta digest new (signature digest old n) n ≡ some d)
      × (patch old d n (length new) ≡ ok new)
unfolding delta
patch-delta digest old new n pos limit fits safe =
    patch-delta_fuel digest old new n pos limit fits safe (length new + 2) (omega arith)
