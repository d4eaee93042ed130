-- ===== src/Ssh/Feeding/Orders.antt =====
-- src/ssh.rs: what `exec_send` does in every order of its turns.
use cargo_remote.Prelude.{
  arith, ℕ, suc, ◌<◌, ◌≡◌, refl, sym, ap, ◌∙◌, List, [], ◌∷◌, ◌++◌, append_assoc, Bytes, Bool, true,
  false, Option, none, some, ok, err, if◌then◌else◌, unwrap_or, or_else, length, subst,
}
use cargo_remote.Ssh.Exec.{Msg, stdout_msg, stderr_msg, exit_status, closed, timed_out, other}
use cargo_remote.Ssh.Captures.{status_of, last_status}
use cargo_remote.Ssh.Feeding.{
  send_failed, eof_failed, stderr_failed, Peer, Sending, Turn, recv, wait, Next, going, returned,
  feed_item, take_msg, send_turn, and_then, send_loop, exec_send,
}

abbrev pub joined_chunks : List Bytes → Bytes
joined_chunks [] = []
joined_chunks (b ∷ bs) = b ++ joined_chunks bs

-- What was sent is the front of the input, all of it once the input is closed; and the exit code is
-- the last status, as far as the messages were taken.
pub record InOrder (input : List Bytes) (msgs : List Msg) (s : Sending) : Type 0 where
  pub front_sent : s.sent ++ joined_chunks s.input ≡ joined_chunks input
  pub all_sent : s.is_open ≡ false → s.input ≡ []
  pub last_code : or_else (status_of s.msgs) s.code ≡ status_of msgs

abbrev pub InOrderNext : List Bytes → List Msg → Next → Type 0
InOrderNext input msgs (going s) = InOrder input msgs s
InOrderNext input msgs (returned (err e) s) = InOrder input msgs s
InOrderNext input msgs (returned (ok code) s) =
    InOrder input msgs s × (code ≡ unwrap_or (status_of msgs) 255)

abbrev pub IsReturned : Next → Type 0
IsReturned (going s) = ⊥
IsReturned (returned r s) = Unit {0}

abbrev pub waits : List Turn → ℕ
waits [] = 0
waits (recv ∷ ts) = waits ts
waits (wait ∷ ts) = suc (waits ts)

module _ (P : Peer) where
  module _ (input : List Bytes) (msgs : List Msg) where
    chunk_left : (b : Bytes) (bs : List Bytes) → b ∷ bs ≡ [] → ⊥
    chunk_left b bs h = cc

    either-InOrder :
        (b : Bool) (x y : Next)
        → InOrderNext input msgs x
        → InOrderNext input msgs y
        → InOrderNext input msgs (if b then x else y)
    either-InOrder true x y hx hy = hx
    either-InOrder false x y hx hy = hy

    feed_item-InOrder :
        (s : Sending)
        → InOrder input msgs s
        → (bs : List Bytes) → s.input ≡ bs
        → InOrderNext input msgs (feed_item P s bs)
    unfolding feed_item
    feed_item-InOrder s h [] e =
        either-InOrder (P.accepts_eof s.sent) (going (record s { is_open = false }))
          (returned (err eof_failed) s)
          (record { front_sent = h.front_sent; all_sent = λ _. e; last_code = h.last_code }) h
    feed_item-InOrder s h (b ∷ bs) e =
        either-InOrder (P.accepts s.sent b) (going (record s { input = bs; sent = s.sent ++ b }))
          (returned (err send_failed) s)
          (record {
            front_sent =
                append_assoc s.sent b (joined_chunks bs)
                ∙ ap (λ l. s.sent ++ joined_chunks l) (sym e)
                ∙ h.front_sent;
            all_sent = λ c. absurd (chunk_left b bs (sym e ∙ h.all_sent c));
            last_code = h.last_code;
          })
          h

    -- A message without a status, and one with a status.
    skipped :
        (s : Sending)
        → InOrder input msgs s
        → (ms : List Msg) (stderr : Bytes) → status_of s.msgs ≡ status_of ms
        → InOrder input msgs (record s { msgs = ms; stderr = stderr })
    skipped s h ms stderr e = record {
      front_sent = h.front_sent;
      all_sent = h.all_sent;
      last_code = ap (λ o. or_else o s.code) (sym e) ∙ h.last_code;
    }

    ended :
        (s : Sending)
        → InOrder input msgs s
        → status_of s.msgs ≡ none
        → unwrap_or s.code 255 ≡ unwrap_or (status_of msgs) 255
    ended s h e = ap (λ o. unwrap_or o 255) (ap (λ o. or_else o s.code) (sym e) ∙ h.last_code)

    take_msg-InOrder :
        (s : Sending)
        → InOrder input msgs s
        → (ms : List Msg) → s.msgs ≡ ms
        → InOrderNext input msgs (take_msg P s ms)
    unfolding take_msg status_of
    take_msg-InOrder s h [] e = (h, ended s h (ap status_of e))
    take_msg-InOrder s h (stdout_msg d ∷ ms) e = skipped s h ms s.stderr (ap status_of e)
    take_msg-InOrder s h (stderr_msg d ∷ ms) e =
        either-InOrder (P.prints s.stderr d)
          (going (record s { msgs = ms; stderr = s.stderr ++ d })) (returned (err stderr_failed) s)
          (skipped s h ms (s.stderr ++ d) (ap status_of e)) h
    take_msg-InOrder s h (exit_status n ∷ ms) e = record {
      front_sent = h.front_sent;
      all_sent = h.all_sent;
      last_code =
          sym (last_status (status_of ms) s.code n)
          ∙ ap (λ o. or_else o s.code) (sym (ap status_of e))
          ∙ h.last_code;
    }
    take_msg-InOrder s h (closed ∷ ms) e = (h, ended s h (ap status_of e))
    take_msg-InOrder s h (timed_out ∷ ms) e = skipped s h ms s.stderr (ap status_of e)
    take_msg-InOrder s h (other ∷ ms) e = skipped s h ms s.stderr (ap status_of e)

    send_turn-InOrder :
        (t : Turn) (s : Sending) → InOrder input msgs s → InOrderNext input msgs (send_turn P t s)
    unfolding send_turn
    send_turn-InOrder recv s h = either-InOrder s.is_open _ _ (feed_item-InOrder s h s.input refl) h
    send_turn-InOrder wait s h = take_msg-InOrder s h s.msgs refl

    and_then-InOrder :
        (n : Next) (k : Sending → Next)
        → InOrderNext input msgs n
        → ((s : Sending) → InOrder input msgs s → InOrderNext input msgs (k s))
        → InOrderNext input msgs (and_then P n k)
    unfolding and_then
    and_then-InOrder (going s) k h hk = hk s h
    and_then-InOrder (returned r s) k h hk = h

    send_loop-InOrder :
        (ts : List Turn) (s : Sending)
        → InOrder input msgs s
        → InOrderNext input msgs (send_loop P ts s)
    unfolding send_loop
    send_loop-InOrder [] s h = h
    send_loop-InOrder (t ∷ ts) s h =
        and_then-InOrder (send_turn P t s) (send_loop P ts) (send_turn-InOrder t s h)
          (send_loop-InOrder ts)

  -- In whatever order the turns come: what was sent is a front of the input, in order and without a
  -- gap, and all of it once the input is closed; and an exit code that is returned is the last
  -- status that the server sent before it closed the channel, or 255 without one.
  pub exec_send-InOrder :
      (input : List Bytes) (msgs : List Msg) (turns : List Turn)
      → InOrderNext input msgs (exec_send P input msgs turns)
  unfolding exec_send
  exec_send-InOrder input msgs turns = send_loop-InOrder input msgs turns _ (record {
    front_sent = refl;
    all_sent = λ c. absurd (opened c);
    last_code = code_none (status_of msgs);
  })
    where
      opened : true ≡ false → ⊥
      opened h = cc

      code_none : (o : Option ℕ) → or_else o none ≡ o
      code_none none = refl
      code_none (some n) = refl

  either-Returned :
      (b : Bool) (x y : Next) (k : Sending → Next)
      → IsReturned (and_then P x k)
      → IsReturned (and_then P y k)
      → IsReturned (and_then P (if b then x else y) k)
  either-Returned true x y k hx hy = hx
  either-Returned false x y k hx hy = hy

  feed_item-Returned :
      (s : Sending) (bs : List Bytes) (k : Sending → Next)
      → ((t : Sending) → t.msgs ≡ s.msgs → IsReturned (k t))
      → IsReturned (and_then P (feed_item P s bs) k)
  unfolding feed_item and_then
  feed_item-Returned s [] k h =
      either-Returned (P.accepts_eof s.sent) _ (returned (err eof_failed) s) k (h _ refl) tt
  feed_item-Returned s (b ∷ bs) k h =
      either-Returned (P.accepts s.sent b) _ (returned (err send_failed) s) k (h _ refl) tt

  take_msg-Returned :
      (s : Sending) (ms : List Msg) (k : Sending → Next)
      → ((t : Sending) → suc (length t.msgs) ≡ length ms → IsReturned (k t))
      → IsReturned (and_then P (take_msg P s ms) k)
  unfolding take_msg and_then
  take_msg-Returned s [] k h = tt
  take_msg-Returned s (stdout_msg d ∷ ms) k h = h _ refl
  take_msg-Returned s (stderr_msg d ∷ ms) k h =
      either-Returned (P.prints s.stderr d) (going (record s { msgs = ms; stderr = s.stderr ++ d }))
        (returned (err stderr_failed) s) k (h _ refl) tt
  take_msg-Returned s (exit_status n ∷ ms) k h = h _ refl
  take_msg-Returned s (closed ∷ ms) k h = tt
  take_msg-Returned s (timed_out ∷ ms) k h = h _ refl
  take_msg-Returned s (other ∷ ms) k h = h _ refl

  send_loop-Returned :
      (ts : List Turn) (s : Sending) → length s.msgs < waits ts → IsReturned (send_loop P ts s)
  unfolding send_loop send_turn and_then
  send_loop-Returned [] s h = absurd (omega arith)
  send_loop-Returned (recv ∷ ts) s h =
      either-Returned s.is_open _ (going s) (send_loop P ts)
        (feed_item-Returned s s.input (send_loop P ts)
          (λ t e. send_loop-Returned ts t (subst (λ ms. length ms < waits ts) (sym e) h)))
        (send_loop-Returned ts s h)
  send_loop-Returned (wait ∷ ts) s h =
      take_msg-Returned s s.msgs (send_loop P ts)
        (λ t e. send_loop-Returned ts t (fewer (length t.msgs) (length s.msgs) (waits ts) e h))
    where
      fewer : (a b c : ℕ) → suc a ≡ b → b < suc c → a < c
      fewer a b c e h = omega arith

  -- It returns, in whatever order the turns come, when the server gets more turns than it has
  -- messages up to the end of the channel: neither an input that stays open nor one that has ended
  -- keeps it waiting.
  pub exec_send-Returned :
      (input : List Bytes) (msgs : List Msg) (turns : List Turn)
      → length msgs < waits turns
      → IsReturned (exec_send P input msgs turns)
  unfolding exec_send
  exec_send-Returned input msgs turns h = send_loop-Returned turns _ h
