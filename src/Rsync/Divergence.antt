-- ===== src/Rsync/Divergence.antt =====
-- `delta` with the block size 0. `Agent::sync` and `serve_fetch` hand the peer's `block_len` to
-- `delta` as it came, where `hdr_block_len` would read 0 as the default.
use cargo_remote.Prelude.{
  ℕ, zero, suc, ◌+◌, ◌%◌, ◌^◌, ◌≡◌, refl, ap, [], ◌∷◌, Bytes, List, none, some, length, slice,
  arith, le→leb, ◌==◌, ◌&&◌, ◌++◌, text_eq_refl, Bool-cases, inl, inr,
}
use cargo_remote.Prelude.LeBytes.{to_le_bytes}
use cargo_remote.Rsync.Checksum.{BlockSig, strong, block_sig, rollsum, rollsum_from}
use cargo_remote.Rsync.Delta.{
  RollTable, push_index, index_sigs, candidates, strong_at, find_strong, Scan, find_hit, copy_block,
  scan_step, scan_loop, scan_start, delta_fuel, emit_literal, op_copy,
}

-- The first candidate stays the first while the table is filled.
push_index_head :
    (a b a' b' i ix : ℕ) (table : RollTable) (l : List ℕ)
    → candidates a b table ≡ ix ∷ l
    → (l' : List ℕ) × (candidates a b (push_index a' b' i table) ≡ ix ∷ l')
unfolding candidates push_index
push_index_head a b a' b' i ix [] l h = cc
push_index_head a b a' b' i ix (((c, d), ixs) ∷ table) l h =
    elim (Bool-cases ((a' == c) && (b' == d))) [
      | inl e ↦ elim (Bool-cases ((a == c) && (b == d))) [
        | inl f ↦
            (l ++ i ∷ [], rw (e, candidates, f) (ap (λ t. t ++ i ∷ []) (rw (candidates, f) at h)))
        | inr f ↦ (l, rw (e, candidates, f) (rw (candidates, f) at h))
      ]
      | inr e ↦ elim (Bool-cases ((a == c) && (b == d))) [
        | inl f ↦ (l, rw (e, candidates, f) (rw (candidates, f) at h))
        | inr f ↦
            let (l', h') = push_index_head a b a' b' i ix table l (rw (candidates, f) at h) in
            (l', rw (e, candidates, f) h')
      ]
    ]

index_sigs_head :
    (a b i ix : ℕ) (sigs : List BlockSig) (table : RollTable) (l : List ℕ)
    → candidates a b table ≡ ix ∷ l
    → (l' : List ℕ) × (candidates a b (index_sigs i sigs table) ≡ ix ∷ l')
unfolding index_sigs
index_sigs_head a b i ix [] table l h = (l, h)
index_sigs_head a b i ix (s ∷ sigs) table l h =
    let (l', h') = push_index_head a b s.a s.b (i % 2 ^ 32) ix table l h in
    index_sigs_head a b (i + 1) ix sigs _ l' h'

module _ (digest : Bytes → Bytes) (new : Bytes) (rest : List BlockSig) where
  abbrev hostile : List BlockSig
  hostile = block_sig digest [] ∷ rest

  abbrev table : RollTable
  table = index_sigs 0 hostile []

  -- The loop's state after any number of rounds.
  abbrev stuck : ℕ → Bytes → Scan
  stuck lit out = record { i = 0; a = 0; b = 0; lit_start = lit; out = out }

  hit : (lit : ℕ) (out : Bytes) → find_hit digest new hostile 0 table (stuck lit out) ≡ some 0
  unfolding find_hit index_sigs block_sig rollsum rollsum_from push_index find_strong strong_at
  hit lit out =
      let (l, h) =
        index_sigs_head 0 0 1 0 rest (((0, 0), 0 ∷ []) ∷ []) [] (unfold candidates in refl) in
      rw h (rw (text_eq_refl (strong digest [])))

  step :
      (lit : ℕ) (out : Bytes)
      → scan_step digest new hostile 0 table (stuck lit out)
        ≡ stuck 0 (emit_literal out (slice new lit 0) ++ op_copy ∷ to_le_bytes 4 0)
  unfolding scan_step copy_block rollsum rollsum_from
  step lit out = rw (hit lit out, scan_step) (rw (le→leb 0 (length new) (omega arith)))

  loop_diverges :
      (fuel lit : ℕ) (out : Bytes)
      → scan_loop digest new hostile 0 fuel table (stuck lit out) ≡ none
  unfolding scan_loop
  loop_diverges zero lit out = refl
  loop_diverges (suc fuel) lit out =
      rw (le→leb 0 (length new) (omega arith), scan_loop)
        (rw (step lit out)
          (loop_diverges fuel 0 (emit_literal out (slice new lit 0) ++ op_copy ∷ to_le_bytes 4 0)))

-- With the block size 0 and a signature list that begins with the entry of the empty block,
-- `delta` does not end, whatever the file and the other entries: no amount of fuel is enough.
pub delta_diverges :
    (digest : Bytes → Bytes) (new : Bytes) (rest : List BlockSig) (fuel : ℕ)
    → delta_fuel digest new (block_sig digest [] ∷ rest) 0 fuel ≡ none
unfolding delta_fuel scan_start rollsum rollsum_from
delta_diverges digest new rest fuel =
    rw (le→leb 0 (length new) (omega arith)) (rw (loop_diverges digest new rest fuel 0 []))
