-- ===== src/Rsync/Wire.antt =====
-- src/rsync.rs: the wire form of a signature, `sig_to_bytes` and `sig_from_bytes`.
use cargo_remote.Prelude.{
  ℕ, zero, suc, ◌*◌, ◌%◌, ◌≤◌, ◌<◌, ◌≡◌, refl, ap, ap₂, List, [], ◌∷◌, ◌++◌, Bytes, Result, ok, err,
  length, take, drop, All, if◌then◌else◌, ◌==◌, arith, length-append, take-append_left,
  drop-append_left,
}
use cargo_remote.Prelude.LeBytes.{
  to_le_bytes, from_le_bytes, length-to_le_bytes, from_le_bytes-to_le_bytes,
}
use cargo_remote.Rsync.Checksum.{BlockSig, u64_mod, strong_len}

-- `REC`, and the only error: a length that is no multiple of it
abbrev pub rec_len : ℕ
rec_len = 32

pub data SigError : Type 0 where
  corrupt_signature : ℕ → SigError

unfoldable pub record_bytes : BlockSig → Bytes
record_bytes s = to_le_bytes 8 s.a ++ (to_le_bytes 8 s.b ++ s.strong)

unfoldable pub sig_to_bytes : List BlockSig → Bytes
unfolding record_bytes
sig_to_bytes [] = []
sig_to_bytes (s ∷ sigs) = record_bytes s ++ sig_to_bytes sigs

parse_record : Bytes → BlockSig
parse_record buf = record {
  a = from_le_bytes (take 8 buf);
  b = from_le_bytes (take 8 (drop 8 buf));
  strong = take strong_len (drop 16 buf);
}

-- The loop `while !buf.is_empty()`; a round takes 32 bytes, so the length is fuel enough.
parse_records : ℕ → Bytes → List BlockSig
parse_records zero buf = []
parse_records (suc f) [] = []
parse_records (suc f) (c ∷ buf) = parse_record (c ∷ buf) ∷ parse_records f (drop rec_len (c ∷ buf))

unfoldable pub sig_from_bytes : Bytes → Result SigError (List BlockSig)
unfolding parse_record parse_records
sig_from_bytes buf =
    if length buf % rec_len == 0
    then ok (parse_records (length buf) buf)
    else err (corrupt_signature (length buf))

-- What a `BlockSig` holds by its Rust type: two `u64` and sixteen bytes.
pub record IsSig (s : BlockSig) : Type 0 where
  pub a_fits : s.a < u64_mod
  pub b_fits : s.b < u64_mod
  pub strong_fits : length s.strong ≡ strong_len

length-record_bytes : (s : BlockSig) → IsSig s → length (record_bytes s) ≡ rec_len
unfolding record_bytes
length-record_bytes s h = omega (
  arith,
  length-append (to_le_bytes 8 s.a) (to_le_bytes 8 s.b ++ s.strong),
  length-append (to_le_bytes 8 s.b) s.strong,
  length-to_le_bytes 8 s.a,
  length-to_le_bytes 8 s.b,
)

parse_record-record_bytes :
    (s : BlockSig) (rest : Bytes) → IsSig s → parse_record (record_bytes s ++ rest) ≡ s
unfolding parse_record record_bytes to_le_bytes
parse_record-record_bytes s rest h = λ i. record {
  a = from_le_bytes-to_le_bytes 8 s.a h.a_fits i;
  b = from_le_bytes-to_le_bytes 8 s.b h.b_fits i;
  strong = take-append_left strong_len s.strong rest (omega arith) i;
}

sig_size :
    (sigs : List BlockSig) → All IsSig sigs → length (sig_to_bytes sigs) ≡ rec_len * length sigs
unfolding sig_to_bytes
sig_size [] h = refl
sig_size (s ∷ sigs) (hs, h) = omega (
  arith,
  length-append (record_bytes s) (sig_to_bytes sigs),
  length-record_bytes s hs,
  sig_size sigs h,
)

parse_records_step :
    (f : ℕ) (s : BlockSig) (rest : Bytes)
    → IsSig s
    → parse_records (suc f) (record_bytes s ++ rest) ≡ s ∷ parse_records f rest
unfolding parse_records record_bytes to_le_bytes
parse_records_step f s rest h =
    ap₂ (λ t u. t ∷ parse_records f u) (parse_record-record_bytes s rest h)
      (drop-append_left strong_len s.strong rest (omega arith))

parse_records-sig_to_bytes :
    (f : ℕ) (sigs : List BlockSig)
    → All IsSig sigs
    → length sigs ≤ f
    → parse_records f (sig_to_bytes sigs) ≡ sigs
unfolding sig_to_bytes
parse_records-sig_to_bytes zero [] h fits = unfold parse_records in refl
parse_records-sig_to_bytes zero (s ∷ sigs) h fits = absurd (omega arith)
parse_records-sig_to_bytes (suc f) [] h fits = unfold parse_records in refl
parse_records-sig_to_bytes (suc f) (s ∷ sigs) (hs, h) fits =
    rw (parse_records_step f s (sig_to_bytes sigs) hs)
      (ap (λ t. s ∷ t) (parse_records-sig_to_bytes f sigs h (omega arith)))

-- Signatures survive the wire.
pub sig_from_bytes-sig_to_bytes :
    (sigs : List BlockSig) → All IsSig sigs → sig_from_bytes (sig_to_bytes sigs) ≡ ok sigs
unfolding sig_from_bytes
sig_from_bytes-sig_to_bytes sigs h =
    rw (sig_size sigs h)
      (ground (arith, parse_records-sig_to_bytes (rec_len * length sigs) sigs h (omega arith)))
