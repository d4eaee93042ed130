-- ===== src/Agent/Paths.antt =====
-- src/agent.rs: paths from the wire, `excluded`, and the checks on names and signature sizes.
-- A path is a `/`-separated text on unix; `components` is `std::path::Path::components` there.
-- A resolved path is the list of its components below `/`.
use cargo_remote.Prelude.{
  ℕ, ◌+◌, ◌-◌, ◌*◌, ◌/◌, List, [], ◌∷◌, ◌++◌, Text, codes, Bool, false, not, ◌&&◌, ◌||◌, Result, ok,
  err, ◌>>◌, ensure, if◌then◌else◌, ◌==◌, ltb, leb, max, min, any, is_empty, is_some, strip_prefix,
  text_eq, contains_char,
}
use cargo_remote.Rsync.Checksum.{block_len_default, u64_mod}

pub data Component : Type 0 where
  root_dir cur_dir parent_dir : Component
  normal : Text → Component

-- The text before the first `/`, and what follows each `/`.
unfoldable pub split_slash : Text → Text × List Text
split_slash [] = ([], [])
split_slash (c ∷ s) = let (w, ws) = split_slash s in if c == b'/' then ([], w ∷ ws) else (c ∷ w, ws)

-- What a piece between slashes is: nothing and `.` are passed over.
unfoldable pub piece : Text → List Component
piece w =
    if is_empty w || text_eq w (codes ".")
    then []
    else if text_eq w (codes "..")
    then parent_dir ∷ []
    else normal w ∷ []

unfoldable pub pieces : List Text → List Component
unfolding piece
pieces [] = []
pieces (w ∷ ws) = piece w ++ pieces ws

-- `Path::components`, from the pieces: a leading `/` is the root, and a leading `.` is kept.
unfoldable pub components_of : Text → List Text → List Component
components_of w ws =
    if is_empty w
    then root_dir ∷ pieces ws
    else if text_eq w (codes ".")
    then cur_dir ∷ pieces ws
    else pieces (w ∷ ws)

unfoldable pub components : Text → List Component
unfolding split_slash components_of
components path =
    if is_empty path then [] else components_of (split_slash path).0 (split_slash path).1

pub data PathError : Type 0 where
  outside_root : PathError
  refused_name : PathError
  oversized_signature : ℕ → PathError

-- The loop of `resolve_under`.
unfoldable pub push_components : List Text → List Component → Result PathError (List Text)
push_components out [] = ok out
push_components out (normal c ∷ cs) = push_components (out ++ c ∷ []) cs
push_components out (cur_dir ∷ cs) = push_components out cs
push_components out (root_dir ∷ cs) = err outside_root
push_components out (parent_dir ∷ cs) = err outside_root

unfoldable pub resolve_under : List Text → Text → Result PathError (List Text)
unfolding push_components components
resolve_under root rel = push_components root (components rel)

unfoldable pub last_of : Text → List Text → Text
last_of w [] = w
last_of w (v ∷ ws) = last_of v ws

-- The text behind the last `/`.
unfoldable pub basename : Text → Text
unfolding split_slash last_of
basename path = last_of (split_slash path).0 (split_slash path).1

-- `b < 0x20 || b == 0x7f`
unfoldable pub is_control_byte : ℕ → Bool
is_control_byte b = ltb b 0x20 || (b == 0x7f)

unfoldable pub checked_basename : Text → Result PathError Text
unfolding basename is_control_byte
checked_basename rel = do
  let name = basename rel
  ensure
      (not (is_empty name)
        && (not (contains_char b'\\' name)
            && (not (any is_control_byte name)
                && (not (text_eq name (codes ".")) && not (text_eq name (codes ".."))))))
      refused_name
  ok name

-- `excluded`
unfoldable pub excluded : Text → List Text → Bool
excluded rel [] = false
excluded rel (e ∷ excludes) =
    (text_eq rel e || is_some (strip_prefix (e ++ codes "/") rel)) || excluded rel excludes

unfoldable pub hdr_block_len : ℕ → ℕ
hdr_block_len h = if h == 0 then block_len_default else h

-- `check_sig_size`; `usize` has 64 bits.
unfoldable pub check_sig_size : ℕ → ℕ → ℕ → Result PathError (Unit {0})
check_sig_size file_len block_len sig_bytes = do
  let n = max block_len 1
  let blocks = (file_len + (n - 1)) / n
  let most = min (blocks * 32) (u64_mod - 1)
  ensure (leb sig_bytes most) (oversized_signature sig_bytes)
