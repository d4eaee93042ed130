-- ===== src/Agent/Framing.antt =====
-- src/agent.rs: the frames and headers that are written against those that are read.
use cargo_remote.Prelude.{
  ℕ, ◌+◌, ◌-◌, ◌≤◌, ◌<◌, ◌≡◌, refl, sym, ap, ap₂, ◌∙◌, List, [], ◌∷◌, ◌++◌, Bytes, true, false,
  Option, none, some, ok, leb, take, drop, slice, length, arith, append_assoc, length-append,
  take-append_left, drop-append_left, le→leb, leb→le, Bool-cases, inl, inr, subst, ok-injective,
}
use mathlib.Core.List.{head-eq_of_cons-eq, tail-eq_of_cons-eq}
use cargo_remote.Prelude.LeBytes.{
  to_le_bytes, from_le_bytes, length-to_le_bytes, from_le_bytes-to_le_bytes,
}
use cargo_remote.Agent.Frames.{
  max_frame, u32_max, write_frame, ChannelMsg, data_msg, stderr_msg, close_msg, timeout_msg,
  other_msg, ChannelIo, FrameRead, got, index, try_frame, attempt, read_frame, read_exact,
  read_frame_std, keep_tail, pack_hdr, unpack_hdr, max_hdr_json,
}

abbrev frame : ℕ → Bytes → Bytes
frame tag payload = to_le_bytes 4 (length payload) ++ tag ∷ payload

length-frame : (tag : ℕ) (payload : Bytes) → length (frame tag payload) ≡ 5 + length payload
length-frame tag payload = omega (
  arith,
  length-append (to_le_bytes 4 (length payload)) (tag ∷ payload),
  length-to_le_bytes 4 (length payload),
)

-- A list that begins like another and is as long at least.
prefix_of :
    (xs ys zs ws : Bytes)
    → xs ++ ys ≡ zs ++ ws
    → length zs ≤ length xs
    → (xs ≡ zs ++ drop (length zs) xs) × (drop (length zs) xs ++ ys ≡ ws)
prefix_of xs ys [] ws h l = (refl, h)
prefix_of [] ys (z ∷ zs) ws h l = absurd (omega arith)
prefix_of (x ∷ xs) ys (z ∷ zs) ws h l =
    let (same, rest) = prefix_of xs ys zs ws (tail-eq_of_cons-eq h) (omega arith) in
    (ap₂ (λ c s. c ∷ s) (head-eq_of_cons-eq h) same, rest)

-- The length bytes, at the head of a buffer.
buf_len :
    (n : ℕ) (rest : Bytes) → n ≤ max_frame → from_le_bytes (take 4 (to_le_bytes 4 n ++ rest)) ≡ n
buf_len n rest l =
    rw (take-append_left 4 (to_le_bytes 4 n) rest (sym (length-to_le_bytes 4 n)))
      (from_le_bytes-to_le_bytes 4 n (omega arith))

try_frame-frame :
    (tag : ℕ) (payload rest : Bytes)
    → length payload ≤ max_frame
    → try_frame (frame tag payload ++ rest) ≡ ok (some ((tag, payload), rest))
unfolding try_frame index to_le_bytes
try_frame-frame tag payload rest l =
    let n = length payload in
    let whole = length-append payload rest in
    let e : from_le_bytes (take 4 (frame tag payload ++ rest)) ≡ n =
      buf_len n (tag ∷ payload ++ rest) l in
    let d : take (5 + n - 5) (payload ++ rest) ≡ payload =
      take-append_left (5 + n - 5) payload rest (omega arith) in
    let five : leb 5 (length (frame tag payload ++ rest)) ≡ true = le→leb _ _ (omega arith) in
    let fits : leb (5 + n) (length (frame tag payload ++ rest)) ≡ true =
      le→leb _ _ (omega (arith, whole)) in
    rw (five, e, le→leb n max_frame l, fits, d)
      (ap (λ r. ok (some ((tag, payload), r)))
        (drop-append_left (5 + n) (frame tag payload) rest (sym (length-frame tag payload))))

try_frame_short :
    (tag : ℕ) (payload buf after rest : Bytes)
    → length payload ≤ max_frame
    → buf ++ after ≡ frame tag payload ++ rest
    → length buf < 5 + length payload
    → try_frame buf ≡ ok none
unfolding try_frame
try_frame_short tag payload buf after rest l e short = elim (Bool-cases (leb 5 (length buf))) [
  | inr few ↦ rw few
  | inl five ↦
      let n = length payload in
      let le = to_le_bytes 4 n in
      let (same, _) =
        prefix_of buf after le (tag ∷ payload ++ rest) (e ∙ append_assoc le (tag ∷ payload) rest)
          (ground (arith, length-to_le_bytes 4 n)) in
      let size : from_le_bytes (take 4 buf) ≡ n =
        ap (λ b. from_le_bytes (take 4 b)) same ∙ buf_len n (drop (length le) buf) l in
      let part : leb (5 + n) (length buf) ≡ false = ground arith in
      rw (five, size, le→leb n max_frame l, part)
]

-- The bytes of the messages, in order.
unfoldable pub bytes_of : List ChannelMsg → Bytes
bytes_of [] = []
bytes_of (data_msg d ∷ msgs) = d ++ bytes_of msgs
bytes_of (_ ∷ msgs) = bytes_of msgs

-- Neither the end of the channel nor a silence that lasts too long.
unfoldable pub IsOpen : List ChannelMsg → Type 0
IsOpen [] = Unit {0}
IsOpen (close_msg ∷ msgs) = ⊥
IsOpen (timeout_msg ∷ msgs) = ⊥
IsOpen (_ ∷ msgs) = IsOpen msgs

-- The call gave this frame, and `rest` is what has come in and is still to come behind it.
unfoldable pub Gives : FrameRead → ℕ → Bytes → Bytes → Type 0
Gives read tag payload rest =
    (io : ChannelIo) × (msgs : List ChannelMsg) × (read ≡ got tag payload io msgs)
    × (io.buf ++ bytes_of msgs ≡ rest)
    × IsOpen msgs

attempt_whole :
    (tag : ℕ) (payload rest : Bytes) (io : ChannelIo) (msgs : List ChannelMsg) (next : FrameRead)
    → length payload ≤ max_frame
    → IsOpen msgs
    → io.buf ++ bytes_of msgs ≡ frame tag payload ++ rest
    → 5 + length payload ≤ length io.buf
    → Gives (attempt io msgs next) tag payload rest
unfolding Gives attempt
attempt_whole tag payload rest io msgs next l o e fits =
    let (same, left) =
      prefix_of io.buf (bytes_of msgs) (frame tag payload) rest e
        (omega (arith, length-frame tag payload)) in
    let r = drop (length (frame tag payload)) io.buf in
    let there : try_frame io.buf ≡ ok (some ((tag, payload), r)) =
      ap try_frame same ∙ try_frame-frame tag payload r l in
    (record io { buf = r }, msgs, rw (there, attempt), left, o)

-- One round, when either the frame is there or the rest of the call gives it.
attempt-Gives :
    (tag : ℕ) (payload rest : Bytes) (io : ChannelIo) (msgs : List ChannelMsg) (next : FrameRead)
    → length payload ≤ max_frame
    → IsOpen msgs
    → io.buf ++ bytes_of msgs ≡ frame tag payload ++ rest
    → (length io.buf < 5 + length payload → Gives next tag payload rest)
    → Gives (attempt io msgs next) tag payload rest
unfolding attempt
attempt-Gives tag payload rest io msgs next l o e later =
    elim (Bool-cases (leb (5 + length payload) (length io.buf))) [
      | inl fits ↦ attempt_whole tag payload rest io msgs next l o e (leb→le _ _ fits)
      | inr h ↦
          let short : length io.buf < 5 + length payload = ground arith in
          let nothing = try_frame_short tag payload io.buf (bytes_of msgs) rest l e short in
          rw (nothing, attempt) (later short)
    ]

-- However the channel cuts the bytes into messages, and whatever stands between them: while it is
-- open and nothing times out, `read_frame` on a stream that starts with a frame gives this frame,
-- and the stream behind it is untouched, in the buffer and in the messages to come. A frame's
-- payload is at most `MAX_FRAME` bytes.
pub read_frame-Gives :
    (tag : ℕ) (payload rest : Bytes) (io : ChannelIo) (msgs : List ChannelMsg)
    → length payload ≤ max_frame
    → IsOpen msgs
    → io.buf ++ bytes_of msgs ≡ frame tag payload ++ rest
    → Gives (read_frame io msgs) tag payload rest
unfolding read_frame bytes_of IsOpen
read_frame-Gives tag payload rest io [] l o e =
    attempt-Gives tag payload rest io [] _ l o e (λ short. absurd (
      omega (
        arith,
        ap (λ s. length s) e,
        length-append io.buf [],
        length-append (frame tag payload) rest,
        length-frame tag payload,
      )))
read_frame-Gives tag payload rest io (data_msg d ∷ msgs) l o e =
    attempt-Gives tag payload rest io (data_msg d ∷ msgs) _ l o e (λ short.
      read_frame-Gives tag payload rest (record io { buf = io.buf ++ d }) msgs l o
        (append_assoc io.buf d (bytes_of msgs) ∙ e))
read_frame-Gives tag payload rest io (stderr_msg d ∷ msgs) l o e =
    attempt-Gives tag payload rest io (stderr_msg d ∷ msgs) _ l o e (λ short.
      read_frame-Gives tag payload rest
        (record io { stderr_tail = keep_tail (io.stderr_tail ++ d) }) msgs l o e)
read_frame-Gives tag payload rest io (close_msg ∷ msgs) l o e = absurd o
read_frame-Gives tag payload rest io (timeout_msg ∷ msgs) l o e = absurd o
read_frame-Gives tag payload rest io (other_msg ∷ msgs) l o e =
    attempt-Gives tag payload rest io (other_msg ∷ msgs) _ l o e
      (λ short. read_frame-Gives tag payload rest io msgs l o e)

-- What `write_frame` hands to the channel is a frame, for payloads that fit.
pub write_frame-frame :
    (tag : ℕ) (payload : Bytes)
    → length payload ≤ max_frame
    → write_frame tag payload ≡ ok (frame tag payload)
unfolding write_frame
write_frame-frame tag payload l = rw (le→leb (length payload) u32_max (omega arith))

std_frame :
    (tag : ℕ) (payload rest : Bytes)
    → length payload ≤ max_frame
    → read_frame_std (frame tag payload ++ rest) ≡ ok (some ((tag, payload), rest))
unfolding read_frame_std read_exact index to_le_bytes
std_frame tag payload rest l =
    let n = length payload in
    let e : from_le_bytes (take 4 (frame tag payload ++ rest)) ≡ n =
      buf_len n (tag ∷ payload ++ rest) l in
    let four : leb 4 (length (frame tag payload ++ rest)) ≡ true = le→leb _ _ (omega arith) in
    let one : leb 1 (length (tag ∷ payload ++ rest)) ≡ true = le→leb _ _ (omega arith) in
    let fits : leb n (length (payload ++ rest)) ≡ true =
      le→leb _ _ (omega (arith, length-append payload rest)) in
    rw (
      four,
      e,
      le→leb n max_frame l,
      one,
      fits,
      take-append_left n payload rest refl,
      drop-append_left n payload rest refl,
    )

-- The agent's end reads what the client's end has written: `StdIo::read_frame` on an input that
-- starts with the output of `write_frame` gives the tag, the payload and the input behind it.
-- The payload is at most `MAX_FRAME` bytes.
pub read_frame_std-write_frame :
    (tag : ℕ) (payload sent rest : Bytes)
    → length payload ≤ max_frame
    → write_frame tag payload ≡ ok sent
    → read_frame_std (sent ++ rest) ≡ ok (some ((tag, payload), rest))
read_frame_std-write_frame tag payload sent rest l w =
    subst (λ s. read_frame_std (s ++ rest) ≡ ok (some ((tag, payload), rest)))
      (ok-injective (sym (write_frame-frame tag payload l) ∙ w)) (std_frame tag payload rest l)

-- A header that serde reads back as it was, of at most `MAX_HDR_JSON` bytes, comes back with the
-- data that was packed behind it.
pub unpack_hdr-pack_hdr :
    {T : Type 0} (encode : T → Bytes) (decode : Bytes → Option T) (hdr : T) (body : Bytes)
    → decode (encode hdr) ≡ some hdr
    → length (encode hdr) ≤ max_hdr_json
    → unpack_hdr encode decode (pack_hdr encode decode hdr body) ≡ ok (hdr, body)
unfolding unpack_hdr pack_hdr to_le_bytes
unpack_hdr-pack_hdr encode decode hdr body back l =
    let j = encode hdr in
    let n = length j in
    let packed = pack_hdr encode decode hdr body in
    let e : from_le_bytes (take 4 packed) ≡ n = buf_len n (j ++ body) (omega arith) in
    let four : leb 4 (length packed) ≡ true = le→leb _ _ (omega arith) in
    let fits : leb (4 + n) (length packed) ≡ true =
      le→leb _ _ (omega (arith, length-append j body)) in
    let json : slice packed 4 (4 + n) ≡ j = take-append_left (4 + n - 4) j body (omega arith) in
    let left : drop (4 + n) packed ≡ body =
      drop-append_left (4 + n) (to_le_bytes 4 n ++ j) body
        (omega (arith, length-append (to_le_bytes 4 n) j)) in
    rw (four, e, le→leb n max_hdr_json l, fits, json, back)
      (ap (λ k. ok (hdr, drop (4 + k) packed)) e ∙ ap (λ b. ok (hdr, b)) left)
