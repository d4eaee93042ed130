-- ===== src/Ssh/Feeding.antt =====
-- src/ssh.rs: `exec_send`, whose `select!` takes either the next item of the input or the next message
-- of the channel. Which one, turn by turn, is a list; the theorems hold for every such list.
pub mod Orders
use cargo_remote.Prelude.{
  ℕ, List, [], ◌∷◌, ◌++◌, Bytes, Bool, true, false, Option, none, some, Result, ok, err,
  if◌then◌else◌, unwrap_or,
}
use cargo_remote.Ssh.Exec.{Msg, stdout_msg, stderr_msg, exit_status, closed, timed_out, other}

pub data SendError : Type 0 where
  send_failed eof_failed stderr_failed : SendError

-- Whether the channel takes a chunk after what was sent, and the end of the input, and whether the
-- local standard error takes what it is given.
pub record Peer : Type 0 where
  pub accepts : Bytes → Bytes → Bool
  pub accepts_eof : Bytes → Bool
  pub prints : Bytes → Bytes → Bool

-- The chunks still to come, whether the input is open, what was sent, the messages still to come,
-- and the exit code so far.
pub record Sending : Type 0 where
  pub input : List Bytes
  pub is_open : Bool
  pub sent : Bytes
  pub msgs : List Msg
  pub code : Option ℕ
  pub stderr : Bytes

pub data Turn : Type 0 where
  recv wait : Turn

pub data Next : Type 0 where
  going : Sending → Next
  returned : Result SendError ℕ → Sending → Next

module _ (P : Peer) where
  unfoldable pub feed_item : Sending → List Bytes → Next
  feed_item s [] =
      if P.accepts_eof s.sent
      then going (record s { is_open = false })
      else returned (err eof_failed) s
  feed_item s (b ∷ bs) =
      if P.accepts s.sent b
      then going (record s { input = bs; sent = s.sent ++ b })
      else returned (err send_failed) s

  -- There is no timeout here: a silence is waited out.
  unfoldable pub take_msg : Sending → List Msg → Next
  take_msg s [] = returned (ok (unwrap_or s.code 255)) s
  take_msg s (stdout_msg d ∷ ms) = going (record s { msgs = ms })
  take_msg s (stderr_msg d ∷ ms) =
      if P.prints s.stderr d
      then going (record s { msgs = ms; stderr = s.stderr ++ d })
      else returned (err stderr_failed) s
  take_msg s (exit_status n ∷ ms) = going (record s { msgs = ms; code = some n })
  take_msg s (closed ∷ ms) = returned (ok (unwrap_or s.code 255)) s
  take_msg s (timed_out ∷ ms) = going (record s { msgs = ms })
  take_msg s (other ∷ ms) = going (record s { msgs = ms })

  -- The branch of the input is off once it has ended.
  unfoldable pub send_turn : Turn → Sending → Next
  unfolding feed_item take_msg
  send_turn recv s = if s.is_open then feed_item s s.input else going s
  send_turn wait s = take_msg s s.msgs

  unfoldable pub and_then : Next → (Sending → Next) → Next
  and_then (going s) k = k s
  and_then (returned r s) k = returned r s

  unfoldable pub send_loop : List Turn → Sending → Next
  unfolding send_turn and_then
  send_loop [] s = going s
  send_loop (t ∷ ts) s = and_then (send_turn t s) (send_loop ts)

  unfoldable pub exec_send : List Bytes → List Msg → List Turn → Next
  unfolding send_loop
  exec_send input msgs turns =
      send_loop turns
        (record { input = input; is_open = true; sent = []; msgs = msgs; code = none; stderr = [] })
