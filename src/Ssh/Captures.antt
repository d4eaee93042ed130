-- ===== src/Ssh/Captures.antt =====
-- src/ssh.rs: the messages of a channel up to its end, and what the loops make of them.
use cargo_remote.Prelude.{
  ℕ, ◌+◌, ◌≤◌, ◌≡◌, refl, sym, ap, ◌∙◌, List, [], ◌∷◌, ◌++◌, Bytes, true, false, Option, none, some,
  Result, ok, err, if◌then◌else◌, ltb, length, unwrap_or, or_else, arith, append_assoc, append-nil,
  length-append, Bool-cases, inl, inr,
}
use cargo_remote.Ssh.Exec.{
  Msg, stdout_msg, stderr_msg, exit_status, closed, timed_out, other, ExecError, over_cap,
  max_capture, capture_loop, exec_capture,
}

-- All output up to the end of the channel.
unfoldable pub output_of : List Msg → Bytes
output_of [] = []
output_of (stdout_msg d ∷ msgs) = d ++ output_of msgs
output_of (closed ∷ msgs) = []
output_of (_ ∷ msgs) = output_of msgs

-- The last exit status up to the end of the channel.
unfoldable pub status_of : List Msg → Option ℕ
status_of [] = none
status_of (exit_status n ∷ msgs) = or_else (status_of msgs) (some n)
status_of (closed ∷ msgs) = none
status_of (_ ∷ msgs) = status_of msgs

-- No silence that lasts too long, up to the end of the channel.
unfoldable pub IsTimely : List Msg → Type 0
IsTimely [] = Unit {0}
IsTimely (timed_out ∷ msgs) = ⊥
IsTimely (closed ∷ msgs) = Unit {0}
IsTimely (_ ∷ msgs) = IsTimely msgs

stops :
    (code : Option ℕ) (out : Bytes)
    → length out ≤ max_capture
    → ◌≡◌ {A = Result ExecError (Option ℕ × Bytes)}
        (ok (code, out))
        (if ltb max_capture (length out + 0) then err over_cap else ok (code, out ++ []))
stops code out l =
    let e : ltb max_capture (length out + 0) ≡ false = ground arith in
    rw e (ap (λ o. ok (code, o)) (sym (append-nil out)))

pub last_status :
    (s code : Option ℕ) (n : ℕ) → or_else (or_else s (some n)) code ≡ or_else s (some n)
last_status none code n = refl
last_status (some k) code n = refl

capture_loop-output :
    (msgs : List Msg) (code : Option ℕ) (out : Bytes)
    → IsTimely msgs
    → length out ≤ max_capture
    → capture_loop msgs code out ≡ (
        if ltb max_capture (length out + length (output_of msgs))
        then err over_cap
        else ok (or_else (status_of msgs) code, out ++ output_of msgs))
unfolding capture_loop output_of status_of IsTimely
capture_loop-output [] code out t l = stops code out l
capture_loop-output (stdout_msg d ∷ msgs) code out t l =
    let o = output_of msgs in
    elim (Bool-cases (ltb max_capture (length (out ++ d)))) [
      | inl e ↦
          let more : ltb max_capture (length out + length (d ++ o)) ≡ true =
            ground (arith, length-append out d, length-append d o) in
          rw (e, more)
      | inr e ↦
          let small : length (out ++ d) ≤ max_capture = ground arith in
          let size : length (out ++ d) + length o ≡ length out + length (d ++ o) =
            omega (arith, length-append out d, length-append d o) in
          rw e (capture_loop-output msgs code (out ++ d) t small ∙ rw (size, append_assoc out d o))
    ]
capture_loop-output (stderr_msg d ∷ msgs) code out t l = capture_loop-output msgs code out t l
capture_loop-output (exit_status n ∷ msgs) code out t l =
    rw (last_status (status_of msgs) code n) (capture_loop-output msgs (some n) out t l)
capture_loop-output (closed ∷ msgs) code out t l = stops code out l
capture_loop-output (timed_out ∷ msgs) code out t l = absurd t
capture_loop-output (other ∷ msgs) code out t l = capture_loop-output msgs code out t l

pub or_else-none : (o : Option ℕ) → or_else o none ≡ o
or_else-none none = refl
or_else-none (some n) = refl

-- When the channel is never silent for too long, `exec_capture` gives the last exit status, or 255
-- without one, and all output up to the end of the channel, exactly when that output is at most
-- `MAX_CAPTURE` bytes; a longer one is an error.
exec_capture-output :
    (msgs : List Msg)
    → IsTimely msgs
    → exec_capture msgs ≡ (
        if ltb max_capture (length (output_of msgs))
        then err over_cap
        else ok (unwrap_or (status_of msgs) 255, output_of msgs))
unfolding exec_capture
exec_capture-output msgs t =
    let o = output_of msgs in
    let e = capture_loop-output msgs none [] t (omega arith) in
    elim (Bool-cases (ltb max_capture (length o))) [
      | inl b ↦ let c : ltb max_capture (0 + length o) ≡ true = ground arith in rw (b, e, c)
      | inr b ↦
          let c : ltb max_capture (0 + length o) ≡ false = ground arith in
          rw (b, e, c, or_else-none (status_of msgs))
    ]
