-- ===== src/RunLock/Decimal.antt =====
-- src/main.rs: the pid as it is written into the lock file and parsed from it.
use cargo_remote.Prelude.{
  ℕ, zero, suc, ◌+◌, ◌-◌, ◌*◌, ◌/◌, ◌%◌, ◌^◌, ◌<◌, ◌≡◌, refl, ap, ◌∙◌, [], ◌∷◌, ◌++◌, Text, Bool,
  true, false, not, ◌&&◌, ◌||◌, some, ◌==◌, ltb, le→leb, all, is_empty, is_ascii_digit, true_below,
  true_below-at, all-append, arith, Bool-cases, inl, inr,
}
use native.Mathlib.Nat.{pow-suc}
use cargo_remote.RunLock.{
  is_whitespace, skip_spaces, drop_spaces, trim, decimal, show_pid, value_from, parse_digits,
  parse_i32,
}

value_from-append :
    (acc : ℕ) (s t : Text) → value_from acc (s ++ t) ≡ value_from (value_from acc s) t
unfolding value_from
value_from-append acc [] t = refl
value_from-append acc (c ∷ s) t = value_from-append (acc * 10 + (c - b'0')) s t

pub value_from-decimal : (fuel n : ℕ) → n < 10 ^ fuel → value_from 0 (decimal fuel n) ≡ n
unfolding decimal value_from
value_from-decimal zero n l = omega arith
value_from-decimal (suc fuel) n l = elim (Bool-cases (ltb n 10)) [
  | inl e ↦ rw e (omega arith)
  | inr e ↦
      let ih = value_from-decimal fuel (n / 10) (omega (arith, pow-suc 10 fuel)) in
      rw e (value_from-append 0 (decimal fuel (n / 10)) ((b'0' + n % 10) ∷ []) ∙ omega (arith, ih))
]

pub all-decimal : (fuel n : ℕ) → all is_ascii_digit (decimal fuel n) ≡ true
unfolding decimal
all-decimal zero n = refl
all-decimal (suc fuel) n = elim (Bool-cases (ltb n 10)) [
  | inl e ↦ rw e (let d : is_ascii_digit (b'0' + n) ≡ true = ground arith in rw d)
  | inr e ↦
      let d : is_ascii_digit (b'0' + n % 10) ≡ true = ground arith in
      rw e (
        all-append is_ascii_digit (decimal fuel (n / 10)) ((b'0' + n % 10) ∷ [])
          (all-decimal fuel (n / 10)) (rw d))
]

append_nonempty : (s : Text) (c : ℕ) → is_empty (s ++ c ∷ []) ≡ false
append_nonempty [] c = refl
append_nonempty (x ∷ s) c = refl

pub decimal_nonempty : (fuel n : ℕ) → is_empty (decimal (suc fuel) n) ≡ false
unfolding decimal
decimal_nonempty fuel n = elim (Bool-cases (ltb n 10)) [
  | inl e ↦ rw e
  | inr e ↦ rw e (append_nonempty (decimal fuel (n / 10)) (b'0' + n % 10))
]

digit_table : true_below (λ c. not (is_ascii_digit c) || not (is_whitespace c)) 58 ≡ true
unfolding true_below is_whitespace
digit_table = refl

pub digit_no_space : (c : ℕ) → is_ascii_digit c ≡ true → is_whitespace c ≡ false
digit_no_space c h =
    let low : c < 58 = ground arith in
    ground (
      arith,
      true_below-at (λ d. not (is_ascii_digit d) || not (is_whitespace d)) 58 c low digit_table,
    )

drop_spaces-digits : (s : Text) → all is_ascii_digit s ≡ true → drop_spaces s ≡ s
unfolding drop_spaces
drop_spaces-digits [] h = refl
drop_spaces-digits (c ∷ s) h =
    let (d, more) = both (is_ascii_digit c) (all is_ascii_digit s) h in
    rw (drop_spaces-digits s more, digit_no_space c d, and_false (is_empty s))
  where
    both : (p q : Bool) → (p && q) ≡ true → (p ≡ true) × (q ≡ true)
    both true q e = (refl, e)
    both false q e = cc

    and_false : (p : Bool) → (p && false) ≡ false
    and_false true = refl
    and_false false = refl

skip_spaces-digits : (s : Text) → all is_ascii_digit s ≡ true → skip_spaces s ≡ s
unfolding skip_spaces
skip_spaces-digits [] h = refl
skip_spaces-digits (c ∷ s) h = ground (arith, digit_no_space c)

trim-digits : (s : Text) → all is_ascii_digit s ≡ true → trim s ≡ s
unfolding trim
trim-digits s h = rw (skip_spaces-digits s h, drop_spaces-digits s h)

parse_i32-digits :
    (s : Text)
    → all is_ascii_digit s ≡ true
    → is_empty s ≡ false
    → value_from 0 s < 2 ^ 31
    → parse_i32 s ≡ some (false, value_from 0 s)
unfolding parse_i32 parse_digits
parse_i32-digits [] h e l = cc
parse_i32-digits (c ∷ s) h e l =
    let minus : (c == b'-') ≡ false = ground arith in
    let plus : (c == b'+') ≡ false = ground arith in
    rw (minus, plus, h, le→leb (value_from 0 (c ∷ s)) (2 ^ 31 - 1) (omega arith))

-- The pid that a run writes into its lock file is what the next run reads from it.
pub parse_i32-show_pid :
    (pid : ℕ) → pid < 2 ^ 31 → parse_i32 (trim (show_pid pid)) ≡ some (false, pid)
unfolding show_pid
parse_i32-show_pid pid l =
    let digits = all-decimal 10 pid in
    let value = value_from-decimal 10 pid (omega arith) in
    rw (trim-digits (decimal 10 pid) digits) (
      parse_i32-digits (decimal 10 pid) digits (decimal_nonempty 9 pid) (omega (arith, value))
      ∙ ap (λ n. some (false, n)) value)
