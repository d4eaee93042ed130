-- ===== src/RunLock.antt =====
-- src/main.rs: the lock file of a run, `acquire_run_lock_in` and the drop of `RunLock`.
-- The file is its content, or `none` when it does not exist; each call is one step on it. `kill`
-- says whether a process is there: `live negative n` stands for `kill(p, 0)` answering 0 or EPERM,
-- for `p` the number `n` with this sign.
pub mod Decimal
pub mod Exclusion
unfoldable pub use cargo_remote.Prelude.Words.{is_whitespace, skip_spaces, drop_spaces, trim}
use cargo_remote.Prelude.{
  ℕ, zero, suc, ◌+◌, ◌-◌, ◌*◌, ◌/◌, ◌%◌, ◌^◌, List, [], ◌∷◌, ◌++◌, Text, Bool, true, false, not,
  ◌&&◌, ◌||◌, Option, none, some, Result, ok, err, if◌then◌else◌, ◌==◌, ltb, leb, all, is_empty,
  is_ascii_digit,
}

-- `{}` of a number below 10 ^ fuel
unfoldable pub decimal : ℕ → ℕ → Text
decimal zero n = []
decimal (suc fuel) n =
    let front = decimal fuel (n / 10) in
    if ltb n 10 then (b'0' + n) ∷ [] else front ++ (b'0' + n % 10) ∷ []

-- a `u32` has at most ten digits
unfoldable pub show_pid : ℕ → Text
unfolding decimal
show_pid pid = decimal 10 pid

unfoldable pub value_from : ℕ → Text → ℕ
value_from acc [] = acc
value_from acc (c ∷ s) = value_from (acc * 10 + (c - b'0')) s

unfoldable pub parse_digits : Text → ℕ → Option ℕ
unfolding value_from
parse_digits s most =
    if not (is_empty s) && (all is_ascii_digit s && leb (value_from 0 s) most)
    then some (value_from 0 s)
    else none

-- `parse::<i32>()`: the sign and the magnitude
unfoldable pub parse_i32 : Text → Option (Bool × ℕ)
unfolding parse_digits
parse_i32 [] = none
parse_i32 (c ∷ s) =
    if c == b'-'
    then with_sign true (parse_digits s (2 ^ 31))
    else if c == b'+'
    then with_sign false (parse_digits s (2 ^ 31 - 1))
    else with_sign false (parse_digits (c ∷ s) (2 ^ 31 - 1))
  where
    with_sign : Bool → Option ℕ → Option (Bool × ℕ)
    with_sign negative none = none
    with_sign negative (some n) = some (negative, n)

pub data LockError : Type 0 where
  lock_held create_failed : LockError

abbrev pub LockFile : Type 0
LockFile = Option Text

-- What the calls do: whether a file that is not there can be created, what a write of a text leaves
-- in the new file, whether a stale file can be removed, and whether one can be created after it.
pub record LockCalls : Type 0 where
  pub creates : Bool
  pub written : Text → Text
  pub removes : Bool
  pub recreates : Bool

module _ (live : Bool → ℕ → Bool) where
  -- `pid.is_some_and(..)`, for the content of the file
  unfoldable pub is_alive : Text → Bool
  unfolding trim parse_i32
  is_alive content = elim (parse_i32 (trim content)) [
    | none ↦ false
    | some (negative, n) ↦ live negative n
  ]

  -- `acquire_run_lock_in`: the result, and the file afterwards. A new file gets the pid, as far as
  -- the write works, which is not looked at; a stale one is replaced by one that stays empty. The
  -- creation and the write are two calls: a run that comes in between finds an empty file.
  unfoldable pub acquire_run_lock :
      LockCalls → ℕ → LockFile → Result LockError (Unit {0}) × LockFile
  unfolding is_alive show_pid
  acquire_run_lock calls pid none =
      if calls.creates
      then (ok tt, some (calls.written (show_pid pid)))
      else (err create_failed, none)
  acquire_run_lock calls pid (some content) =
      if not (is_alive content)
      then if calls.removes
        then if calls.recreates then (ok tt, some []) else (err lock_held, none)
        else (err lock_held, some content)
      else (err lock_held, some content)

-- The drop of `RunLock` removes the file.
unfoldable pub release : LockFile → LockFile
release file = none
