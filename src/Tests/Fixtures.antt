-- ===== src/Tests/Fixtures.antt =====
-- A small JSON and a small disk for the runs of the agent.
use cargo_remote.Prelude.{
  ℕ, zero, suc, ◌^◌, ◌<◌, ◌≤◌, ◌≡◌, refl, sym, ap, ◌∙◌, subst, [], ◌∷◌, ◌++◌, Text, codes, Bytes,
  Bool, true, false, Option, none, some, if◌then◌else◌, ◌==◌, length, take, drop, length-append,
  replicate, arith,
}
use cargo_remote.Prelude.{Bool-cases, inl, inr}
use cargo_remote.Prelude.LeBytes.{to_le_bytes, from_le_bytes, from_le_bytes-to_le_bytes}
use cargo_remote.Rsync.Checksum.{isqrt, clamp, block_len_for, strong}
use cargo_remote.Rsync.RoundTrip.{NoCollision}
use cargo_remote.Agent.Frames.{max_hdr_json}
use cargo_remote.Agent.Disk.{is_link, Direct, FilePath, File, Node, absent, file_node}
use cargo_remote.Agent.Disk.Memory.{Memory, memory, path_eq}
use cargo_remote.Agent.Storing.{ℤ, pos, negsuc}
use cargo_remote.Agent.Messages.{SigHdr, FileHdr, Json, IsI64, ReadsBack}
use cargo_remote.Agent.Server.{Served}

-- A JSON of bytes in a row: numbers in as many bytes as their types have, and texts.
abbrev pub bit : Bool → ℕ
bit true = 1
bit false = 0

abbrev pub sign : ℤ → ℕ
sign (pos t) = 0
sign (negsuc t) = 1

abbrev pub size : ℤ → ℕ
size (pos t) = t
size (negsuc t) = t

abbrev pub signed : ℕ → ℕ → ℤ
signed s t = if s == 0 then pos t else negsuc t

-- A text with a mark before each byte, and no mark behind the last.
abbrev pub marked : Text → Bytes
marked [] = 0 ∷ []
marked (c ∷ t) = 1 ∷ c ∷ marked t

abbrev pub link_bytes : Option Text → Bytes
link_bytes none = 0 ∷ []
link_bytes (some t) = 1 ∷ marked t

unfoldable pub read_marked : Bytes → Text × Bytes
read_marked [] = ([], [])
read_marked (zero ∷ rest) = ([], rest)
read_marked (suc m ∷ []) = ([], [])
read_marked (suc m ∷ c ∷ rest) = let r = read_marked rest in (c ∷ r.0, r.1)

abbrev pub read_link : Bytes → Option Text × Bytes
read_link [] = (none, [])
read_link (zero ∷ rest) = (none, rest)
read_link (suc m ∷ rest) = let r = read_marked rest in (some r.0, r.1)

unfoldable pub file_bytes : FileHdr → Bytes
file_bytes h =
    to_le_bytes 4 h.mode
    ++ to_le_bytes 1 (sign h.mtime)
    ++ to_le_bytes 8 (size h.mtime)
    ++ to_le_bytes 1 h.kind
    ++ to_le_bytes 1 (bit h.delta)
    ++ to_le_bytes 4 h.block_len
    ++ to_le_bytes 1 (bit h.exists)
    ++ to_le_bytes 8 h.len
    ++ link_bytes h.link
    ++ h.path

-- The number in the `k` bytes from `at` on.
abbrev pub field : ℕ → ℕ → Bytes → ℕ
field k at b = from_le_bytes (take k (drop at b))

unfoldable pub file_of : Bytes → Option FileHdr
file_of b = some (record {
  path = (read_link (drop 28 b)).1;
  mode = field 4 0 b;
  mtime = signed (field 1 4 b) (field 8 5 b);
  kind = field 1 13 b;
  link = (read_link (drop 28 b)).0;
  delta = field 1 14 b == 1;
  block_len = field 4 15 b;
  exists = field 1 19 b == 1;
  len = field 8 20 b;
})

unfoldable pub sig_bytes : SigHdr → Bytes
sig_bytes h = to_le_bytes 4 h.block_len ++ h.path

unfoldable pub sig_of : Bytes → Option SigHdr
sig_of b = some (record { path = drop 4 b; block_len = field 4 0 b })

abbrev pub row : Json
row = record {
  encode_sig = sig_bytes;
  decode_sig = sig_of;
  encode_file = file_bytes;
  decode_file = file_of;
  decode_paths = λ b. some (b ∷ []);
  encode_done = λ files bytes. files ∷ bytes ∷ [];
}

signed_back : (t : ℤ) → signed (sign t) (size t) ≡ t
signed_back (pos t) = refl
signed_back (negsuc t) = refl

sign_fits : (t : ℤ) → sign t < 256 ^ 1
sign_fits (pos t) = omega arith
sign_fits (negsuc t) = omega arith

size_fits : (t : ℤ) → IsI64 t → size t < 256 ^ 8
size_fits (pos t) h = omega arith
size_fits (negsuc t) h = omega arith

bit_fits : (b : Bool) → bit b < 256 ^ 1
bit_fits true = omega arith
bit_fits false = omega arith

bit_back : (b : Bool) → (bit b == 1) ≡ b
bit_back true = refl
bit_back false = refl

marked_back : (t p : Text) → read_marked (marked t ++ p) ≡ (t, p)
unfolding read_marked
marked_back [] p = refl
marked_back (c ∷ t) p = ap (λ r. (c ∷ r.0, r.1)) (marked_back t p)

link_back : (l : Option Text) (p : Text) → read_link (link_bytes l ++ p) ≡ (l, p)
link_back none p = refl
link_back (some t) p = ap (λ r. (some r.0, r.1)) (marked_back t p)

flag_back : (b : Bool) → (from_le_bytes (to_le_bytes 1 (bit b)) == 1) ≡ b
flag_back b = ap (λ n. n == 1) (from_le_bytes-to_le_bytes 1 (bit b) (bit_fits b)) ∙ bit_back b

time_back :
    (t : ℤ)
    → IsI64 t
    → signed (from_le_bytes (to_le_bytes 1 (sign t))) (from_le_bytes (to_le_bytes 8 (size t))) ≡ t
time_back t h =
    (λ i.
      signed (from_le_bytes-to_le_bytes 1 (sign t) (sign_fits t) i)
        (from_le_bytes-to_le_bytes 8 (size t) (size_fits t h) i))
    ∙ signed_back t

pub row-ReadsBack : ReadsBack row
unfolding file_bytes file_of sig_bytes sig_of to_le_bytes
row-ReadsBack = record {
  sig_back = λ h fits i. some (record {
    path = h.path;
    block_len = from_le_bytes-to_le_bytes 4 h.block_len (omega arith) i;
  });
  file_back = λ h fits i. some (record {
    path = (link_back h.link h.path i).1;
    mode = from_le_bytes-to_le_bytes 4 h.mode (let f = fits.mode_fits in omega arith) i;
    mtime = time_back h.mtime fits.mtime_fits i;
    kind = from_le_bytes-to_le_bytes 1 h.kind (let f = fits.kind_fits in omega arith) i;
    link = (link_back h.link h.path i).0;
    delta = flag_back h.delta i;
    block_len =
        from_le_bytes-to_le_bytes 4 h.block_len (let f = fits.block_len_fits in omega arith) i;
    exists = flag_back h.exists i;
    len = from_le_bytes-to_le_bytes 8 h.len (let f = fits.len_fits in omega arith) i;
  });
}

-- With a short path and no link, the headers are short.
pub short_sig :
    (h : SigHdr) (p : Text)
    → h.path ≡ p
    → length p ≤ 4096
    → length (row.encode_sig h) ≤ max_hdr_json
unfolding sig_bytes to_le_bytes
short_sig h p e l = omega (arith, ap (λ t. length t) e)

pub short_file :
    (h : FileHdr) (p : Text)
    → h.path ≡ p
    → h.link ≡ none
    → length p ≤ 4096
    → length (row.encode_file h) ≤ max_hdr_json
unfolding file_bytes to_le_bytes
short_file h p e n l = omega (
  arith,
  length-append (link_bytes h.link) h.path,
  ap (λ t. length t) e,
  ap (λ k. length (link_bytes k)) n,
)

abbrev pub project : FilePath
project = codes "p" ∷ []

-- A file of one block.
unfoldable pub sevens : Bytes
sevens = replicate 2048 7

length-replicate : (n x : ℕ) → length (replicate n x) ≡ n
length-replicate zero x = refl
length-replicate (suc n) x = ap suc (length-replicate n x)

pub length-sevens : length sevens ≡ 2048
unfolding sevens
length-sevens = length-replicate 2048 7

-- A strong hash that tells files apart by their first bytes.
abbrev pub padded : Bytes → Bytes
padded w = w ++ replicate 16 0

pub length-padded : (w : Bytes) → 16 ≤ length (padded w)
length-padded w = omega (arith, length-append w (replicate 16 0))

first : Bytes → ℕ
first [] = 0
first (x ∷ w) = x

in_blocks : NoCollision padded sevens (9 ∷ sevens) 2048
unfolding sevens strong first
in_blocks i (suc ix) inside l h = absurd (omega (arith, length-sevens))
in_blocks zero zero inside l h = absurd (let e : 7 ≡ 9 = ap first h in omega arith)
in_blocks (suc zero) zero inside l h = refl
in_blocks (suc (suc i)) zero inside l h = absurd (omega (arith, length-sevens))

block_len : block_len_for (length sevens) ≡ 2048
unfolding block_len_for isqrt clamp
block_len = ap block_len_for length-sevens

-- The new file has a byte before the block, so a literal and a copy are sent for it.
pub block_kept : NoCollision padded sevens (9 ∷ sevens) (block_len_for (length sevens))
block_kept = subst (NoCollision padded sevens (9 ∷ sevens)) (sym block_len) in_blocks

abbrev pub old_file : File
old_file = record { content = sevens; mode = 0o644; mtime = 5 }

abbrev pub old_node : FilePath → Node
old_node q = if path_eq q (codes "p" ∷ codes "a.rs" ∷ []) then file_node old_file else absent

abbrev pub disk_with : Bool → Memory
disk_with full = record { node = old_node; clock = 100; full = full }

abbrev pub zeros : Bytes → Bytes
zeros w = replicate 16 0

abbrev pub served : Served memory
served = record { disk = disk_with false; out = []; files = 0; bytes = 0 }

pub project-Direct : (full : Bool) → Direct memory (disk_with full) project
unfolding is_link
project-Direct full q h = elim (Bool-cases (path_eq q (codes "p" ∷ codes "a.rs" ∷ []))) [
  | inl e ↦ rw e refl
  | inr e ↦ rw e refl
]
