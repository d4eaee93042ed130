-- ===== src/Agent/Frames.antt =====
-- src/agent.rs: frames, `ChannelIo` and `StdIo`, and the headers of data frames.
-- JSON is serde's: `encode` and `decode` stand for `serde_json::to_vec` and `from_slice`.
-- What `self.ch.wait()` answers is a list of messages; the timeout is one of them.
use cargo_remote.Prelude.{
  ℕ, ◌+◌, ◌-◌, ◌*◌, ◌^◌, List, [], ◌∷◌, ◌++◌, Bytes, Option, none, some, Result, ok, err, ◌>>=◌,
  ◌>>◌, ensure, if◌then◌else◌, ltb, leb, take, drop, slice, length, get_elem?, is_empty,
}
use cargo_remote.Prelude.LeBytes.{to_le_bytes, from_le_bytes}

abbrev pub u32_max : ℕ
u32_max = 2 ^ 32 - 1

-- `MAX_FRAME` and `MAX_HDR_JSON`
abbrev pub max_frame : ℕ
max_frame = 512 * 1024 * 1024

abbrev pub max_hdr_json : ℕ
max_hdr_json = 2 ^ 20

pub data FrameError : Type 0 where
  payload_too_large frame_too_large hdr_too_large : ℕ → FrameError
  unprocessed : ℕ → FrameError
  idle short_data short_header unexpected_eof bad_json : FrameError

-- `write_frame`, the same at both ends: what it hands to the channel.
unfoldable pub write_frame : ℕ → Bytes → Result FrameError Bytes
write_frame tag payload = do
  ensure (leb (length payload) u32_max) (payload_too_large (length payload))
  ok (to_le_bytes 4 (length payload) ++ tag ∷ payload)

-- A message of the channel. `other` is any that the loop passes over.
pub data ChannelMsg : Type 0 where
  data_msg stderr_msg : Bytes → ChannelMsg
  close_msg timeout_msg other_msg : ChannelMsg

pub record ChannelIo : Type 0 where
  pub buf : Bytes
  pub stderr_tail : Bytes

-- `buf[i]`, at an index that the code has checked
unfoldable pub index : Bytes → ℕ → ℕ
index buf i = elim (get_elem? buf i) [ none ↦ 0 | some x ↦ x ]

-- The head of the loop: a frame if the buffer holds one, and what is left of the buffer.
unfoldable pub try_frame : Bytes → Result FrameError (Option ((ℕ × Bytes) × Bytes))
unfolding index
try_frame buf =
    if leb 5 (length buf)
    then (let len = from_le_bytes (take 4 buf) in
        ensure (leb len max_frame) (frame_too_large len)
        >> ok (
            if leb (5 + len) (length buf)
            then some ((index buf 4, slice buf 5 (5 + len)), drop (5 + len) buf)
            else none))
    else ok none

-- the last 64 KiB
unfoldable pub keep_tail : Bytes → Bytes
keep_tail tail = if ltb (64 * 1024) (length tail) then drop (length tail - 64 * 1024) tail else tail

-- What one call of `read_frame` comes to: a frame, the end of the stream, an error, or a wait
-- for a message that is not in the list.
pub data FrameRead : Type 0 where
  got : ℕ → Bytes → ChannelIo → List ChannelMsg → FrameRead
  at_end : FrameRead
  failed : FrameError → FrameRead
  waiting : ChannelIo → FrameRead

-- One round: a frame if there is one, and else what follows from the next message.
unfoldable pub attempt : ChannelIo → List ChannelMsg → FrameRead → FrameRead
unfolding try_frame
attempt io msgs next = elim (try_frame io.buf) [
  | err e ↦ failed e
  | ok (some ((tag, payload), rest)) ↦ got tag payload (record io { buf = rest }) msgs
  | ok none ↦ next
]

-- `ChannelIo::read_frame`
unfoldable pub read_frame : ChannelIo → List ChannelMsg → FrameRead
unfolding attempt keep_tail
read_frame io [] = attempt io [] (waiting io)
read_frame io (data_msg d ∷ msgs) =
    attempt io (data_msg d ∷ msgs) (read_frame (record io { buf = io.buf ++ d }) msgs)
read_frame io (stderr_msg d ∷ msgs) =
    attempt io (stderr_msg d ∷ msgs)
      (read_frame (record io { stderr_tail = keep_tail (io.stderr_tail ++ d) }) msgs)
read_frame io (close_msg ∷ msgs) =
    attempt io (close_msg ∷ msgs)
      (if is_empty io.buf then at_end else failed (unprocessed (length io.buf)))
read_frame io (timeout_msg ∷ msgs) = attempt io (timeout_msg ∷ msgs) (failed idle)
read_frame io (other_msg ∷ msgs) = attempt io (other_msg ∷ msgs) (read_frame io msgs)

-- `read_exact` of `n` bytes from what is left of the standard input
unfoldable pub read_exact : ℕ → Bytes → Result FrameError (Bytes × Bytes)
read_exact n input =
    if leb n (length input) then ok (take n input, drop n input) else err unexpected_eof

-- `StdIo::read_frame`, on all the input there will be. An end of the input inside the four
-- length bytes counts as the end of the stream.
unfoldable pub read_frame_std : Bytes → Result FrameError (Option ((ℕ × Bytes) × Bytes))
unfolding index read_exact
read_frame_std input =
    if leb 4 (length input)
    then (do
      let len = from_le_bytes (take 4 input)
      ensure (leb len max_frame) (frame_too_large len)
      (tag, rest) ← read_exact 1 (drop 4 input)
      (payload, rest') ← read_exact len rest
      ok (some ((index tag 0, payload), rest')))
    else ok none

module _ {T : Type 0} (encode : T → Bytes) (decode : Bytes → Option T) where
  -- `pack_hdr`: `as u32` cuts the length of the header to four bytes.
  unfoldable pub pack_hdr : T → Bytes → Bytes
  pack_hdr hdr body = to_le_bytes 4 (length (encode hdr)) ++ (encode hdr ++ body)

  -- `unpack_hdr`
  unfoldable pub unpack_hdr : Bytes → Result FrameError (T × Bytes)
  unpack_hdr payload = do
    ensure (leb 4 (length payload)) short_data
    let jlen = from_le_bytes (take 4 payload)
    ensure (leb jlen max_hdr_json) (hdr_too_large jlen)
    ensure (leb (4 + jlen) (length payload)) short_header
    elim (decode (slice payload 4 (4 + jlen))) [
      | none ↦ err bad_json
      | some hdr ↦ ok (hdr, drop (4 + jlen) payload)
    ]
