-- ===== src/Agent/Messages.antt =====
-- src/agent.rs: the tags of frames and the headers in them. Their JSON is serde's, a parameter.
use cargo_remote.Prelude.{ℕ, ◌<◌, ◌^◌, ◌≡◌, List, Text, Bytes, Bool, Option, some}
use cargo_remote.Agent.Storing.{ℤ, pos, negsuc}

-- `mod tag`
abbrev pub tag_sig_req : ℕ
tag_sig_req = 5

abbrev pub tag_sig : ℕ
tag_sig = 6

abbrev pub tag_put : ℕ
tag_put = 7

abbrev pub tag_delete : ℕ
tag_delete = 8

abbrev pub tag_mkdir : ℕ
tag_mkdir = 9

abbrev pub tag_plan_done : ℕ
tag_plan_done = 10

abbrev pub tag_done : ℕ
tag_done = 11

pub record SigHdr : Type 0 where
  pub path : Text
  pub block_len : ℕ

pub record FileHdr : Type 0 where
  pub path : Text
  pub mode : ℕ
  pub mtime : ℤ
  pub kind : ℕ
  pub link : Option Text
  pub delta : Bool
  pub block_len : ℕ
  pub exists : Bool
  pub len : ℕ

-- `to_vec` and `from_slice` at the types of the frames. `Paths` and `SigReq` have the same form.
pub record Json : Type 0 where
  pub encode_sig : SigHdr → Bytes
  pub decode_sig : Bytes → Option SigHdr
  pub encode_file : FileHdr → Bytes
  pub decode_file : Bytes → Option FileHdr
  pub decode_paths : Bytes → Option (List Text)
  pub encode_done : ℕ → ℕ → Bytes

-- The numbers that the types of the fields hold: `u32`, `u64`, `i64` and `u8`.
abbrev pub IsI64 : ℤ → Type 0
IsI64 (pos t) = t < 2 ^ 63
IsI64 (negsuc t) = t < 2 ^ 63

abbrev pub FitsSig : SigHdr → Type 0
FitsSig h = h.block_len < 2 ^ 32

pub record FitsFile (h : FileHdr) : Type 0 where
  pub mode_fits : h.mode < 2 ^ 32
  pub mtime_fits : IsI64 h.mtime
  pub kind_fits : h.kind < 2 ^ 8
  pub block_len_fits : h.block_len < 2 ^ 32
  pub len_fits : h.len < 2 ^ 64

-- What is written is read back, for headers whose numbers fit their types.
pub record ReadsBack (J : Json) : Type 0 where
  pub sig_back : (h : SigHdr) → FitsSig h → J.decode_sig (J.encode_sig h) ≡ some h
  pub file_back : (h : FileHdr) → FitsFile h → J.decode_file (J.encode_file h) ≡ some h
