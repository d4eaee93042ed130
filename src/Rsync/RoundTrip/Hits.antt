-- ===== src/Rsync/RoundTrip/Hits.antt =====
-- src/rsync.rs: a hit of `delta`, and the block of the old file that its index names.
use cargo_remote.Prelude.{
  ℕ, zero, suc, ◌+◌, ◌*◌, ◌%◌, ◌^◌, ◌<◌, ◌≡◌, refl, ap, ◌∙◌, sym, List, [], ◌∷◌, map, Bytes, Option,
  none, some, true, false, ◌&&◌, length, get_elem?, slice, take, drop, All, arith, ◌==◌, text_eq,
  text_eq→eq, Bool-cases, inl, inr, drop-drop, length-drop, All-append,
}
use mathlib.Core.Option.{some-injective}
use cargo_remote.Rsync.Checksum.{BlockSig, strong, chunks_from, chunks, block_sig, signature}
use cargo_remote.Rsync.Delta.{
  RollTable, push_index, index_sigs, candidates, strong_at, find_strong, Scan, find_hit,
}

abbrev IsIndex : ℕ → Type 0
IsIndex ix = ix < 2 ^ 32

abbrev pub IsIndexTable : RollTable → Type 0
IsIndexTable = All (λ e. All IsIndex e.1)

push_index-IsIndexTable :
    (a b i : ℕ) (table : RollTable)
    → i < 2 ^ 32
    → IsIndexTable table
    → IsIndexTable (push_index a b i table)
unfolding push_index
push_index-IsIndexTable a b i [] hi h = ((hi, tt), tt)
push_index-IsIndexTable a b i (((a', b'), ixs) ∷ table) hi (h, t) =
    elim (Bool-cases ((a == a') && (b == b'))) [
      | inl e ↦ rw e (All-append IsIndex ixs (i ∷ []) h (hi, tt), t)
      | inr e ↦ rw e (h, push_index-IsIndexTable a b i table hi t)
    ]

pub index_sigs-IsIndexTable :
    (i : ℕ) (sigs : List BlockSig) (table : RollTable)
    → IsIndexTable table
    → IsIndexTable (index_sigs i sigs table)
unfolding index_sigs
index_sigs-IsIndexTable i [] table h = h
index_sigs-IsIndexTable i (s ∷ sigs) table h =
    index_sigs-IsIndexTable (i + 1) sigs (push_index s.a s.b (i % 2 ^ 32) table)
      (push_index-IsIndexTable s.a s.b (i % 2 ^ 32) table (omega arith) h)

candidates-IsIndex :
    (a b : ℕ) (table : RollTable) → IsIndexTable table → All IsIndex (candidates a b table)
unfolding candidates
candidates-IsIndex a b [] h = tt
candidates-IsIndex a b (((a', b'), ixs) ∷ table) (h, t) =
    elim (Bool-cases ((a == a') && (b == b'))) [
      | inl e ↦ rw e h
      | inr e ↦ rw e (candidates-IsIndex a b table t)
    ]

find_strong_found :
    (sigs : List BlockSig) (s : Bytes) (ixs : List ℕ) (ix : ℕ)
    → All IsIndex ixs
    → find_strong sigs s ixs ≡ some ix
    → (ix < 2 ^ 32) × (strong_at sigs s ix ≡ true)
unfolding find_strong
find_strong_found sigs s [] ix h e = cc
find_strong_found sigs s (j ∷ ixs) ix (hj, h) e = ground (arith, find_strong_found sigs s ixs ix h)

strong_at_found :
    (sigs : List BlockSig) (s : Bytes) (ix : ℕ)
    → strong_at sigs s ix ≡ true
    → (g : BlockSig) × (get_elem? sigs ix ≡ some g) × (g.strong ≡ s)
unfolding strong_at
strong_at_found sigs s ix h = go (get_elem? sigs ix) refl h
  where
    go :
        (o : Option BlockSig)
        → get_elem? sigs ix ≡ o
        → (elim o [ none ↦ false | some g ↦ text_eq g.strong s ]) ≡ true
        → (g : BlockSig) × (get_elem? sigs ix ≡ some g) × (g.strong ≡ s)
    go none e t = cc
    go (some g) e t = (g, e, text_eq→eq g.strong s t)

-- The block that index `ix` names.
module _ (digest : Bytes → Bytes) where
  block_of_index :
      (f n : ℕ) (xs : Bytes) (ix : ℕ) (g : BlockSig)
      → 0 < n
      → get_elem? (map (block_sig digest) (chunks_from f n xs)) ix ≡ some g
      → (ix * n < length xs) × (g.strong ≡ strong digest (take n (drop (ix * n) xs)))
  unfolding chunks_from block_sig
  block_of_index zero n xs ix g hn e = cc
  block_of_index (suc f) n [] ix g hn e = cc
  block_of_index (suc f) n (x ∷ xs) zero g hn e =
      let z : 0 ≡ 0 * n = omega arith in
      let first : g.strong ≡ strong digest (take n (x ∷ xs)) =
        ap (λ (s : BlockSig). s.strong) (sym (some-injective _ _ e)) in
      (omega (arith, z), first ∙ ap (λ t. strong digest (take n (drop t (x ∷ xs)))) z)
  block_of_index (suc f) n (x ∷ xs) (suc ix) g hn e =
      let (inside, same) = block_of_index f n (drop n (x ∷ xs)) ix g hn e in
      let more : n + ix * n ≡ suc ix * n = omega arith in
      (
        omega (arith, inside, length-drop n (x ∷ xs)),
        same
            ∙ ap (λ t. strong digest (take n t)) (drop-drop (ix * n) n (x ∷ xs))
            ∙ ap (λ t. strong digest (take n (drop t (x ∷ xs)))) more,
      )

  pub find_hit_found :
      (new old : Bytes) (n : ℕ) (table : RollTable) (s : Scan) (ix : ℕ)
      → 0 < n
      → IsIndexTable table
      → find_hit digest new (signature digest old n) n table s ≡ some ix
      → (ix < 2 ^ 32)
        × (ix * n < length old)
        × (strong digest (take n (drop (ix * n) old)) ≡ strong digest (slice new s.i (s.i + n)))
  unfolding find_hit signature chunks
  find_hit_found new old n table s ix hn ht e =
      let window = strong digest (slice new s.i (s.i + n)) in
      let (small, at) =
        find_strong_found (signature digest old n) window (candidates s.a s.b table) ix
          (candidates-IsIndex s.a s.b table ht) e in
      let (g, here, same) = strong_at_found (signature digest old n) window ix at in
      let (inside, block) = block_of_index (length old) n old ix g hn here in
      (small, inside, sym block ∙ same)
