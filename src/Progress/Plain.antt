-- ===== src/Progress/Plain.antt =====
-- src/progress.rs: the lines that are drawn have no carriage return in them when their parts have none.
use cargo_remote.Prelude.{
  arith, ℕ, zero, suc, ◌+◌, ◌-◌, ◌^◌, min, ◌≡◌, refl, [], ◌∷◌, ◌++◌, Text, codes, Bool, true, false,
  ◌&&◌, Option, none, some, if◌then◌else◌, ◌==◌, ltb, leb, length, take, replicate, all,
  is_ascii_digit,
}
use cargo_remote.RunLock.Decimal.{all-decimal}
use cargo_remote.Progress.{
  Progress, Floats, show_count, pad_left, known_total, percent, fit, filled_part, bar, human,
  amounts, eta_text, files_text, heading, counts, line_of, render,
}
use cargo_remote.Progress.Terminal.{returns, returns-append}

-- A text without a carriage return.
pub record Plain (s : Text) : Type 0 where
  pub no_return : returns s ≡ false

lit : (s : Text) → returns s ≡ false → Plain s
lit s h = record { no_return = h }

append-Plain : {s t : Text} → Plain s → Plain t → Plain (s ++ t)
append-Plain {s} {t} p q = record { no_return = returns-append s t p.no_return q.no_return }

cons-Plain : {s : Text} (c : ℕ) → (c == 13) ≡ false → Plain s → Plain (c ∷ s)
cons-Plain c h p = record { no_return = ground (arith, p.no_return) }

either-Plain : (b : Bool) {s t : Text} → Plain s → Plain t → Plain (if b then s else t)
either-Plain true p q = p
either-Plain false p q = q

-- What the parameter gives, and a status, have no carriage return.
pub record PlainFloats (F : Floats) : Type 0 where
  pub plain_tenths : (n unit : ℕ) → Plain (F.tenths n unit)
  pub plain_seconds : (n : ℕ) → Plain (F.seconds n)

abbrev pub PlainStatus : Option Text → Type 0
PlainStatus none = Unit {0}
PlainStatus (some st) = Plain st

digits_no_return : (s : Text) → all is_ascii_digit s ≡ true → returns s ≡ false
digits_no_return [] h = refl
digits_no_return (c ∷ s) h = ground (arith, digits_no_return s)

show_count-Plain : (n : ℕ) → Plain (show_count n)
unfolding show_count
show_count-Plain n = lit (show_count n) (digits_no_return (show_count n) (all-decimal 20 n))

replicate-Plain : (n c : ℕ) → (c == 13) ≡ false → Plain (replicate n c)
replicate-Plain zero c h = lit [] refl
replicate-Plain (suc n) c h = cons-Plain c h (replicate-Plain n c h)

take_no_return : (n : ℕ) (s : Text) → returns s ≡ false → returns (take n s) ≡ false
take_no_return zero s h = refl
take_no_return (suc n) [] h = refl
take_no_return (suc n) (c ∷ s) h = ground (arith, take_no_return n s)

fit-Plain : (cols : Option ℕ) (s : Text) → Plain s → Plain (fit cols s)
unfolding fit
fit-Plain none s p = p
fit-Plain (some cols) s p =
    either-Plain (ltb (cols - 1) (length s)) (lit _ (take_no_return (cols - 1) s p.no_return)) p

filled_part-Plain : (filled width : ℕ) → Plain (filled_part filled width)
unfolding filled_part
filled_part-Plain filled width = either-Plain (leb width filled) (replicate-Plain width b'=' refl) (
    append-Plain (replicate-Plain filled b'=' refl)
      (cons-Plain b'>' refl (replicate-Plain _ b' ' refl)))

bar-Plain : (done : ℕ) (total cols : Option ℕ) (used : ℕ) → Plain (bar done total cols used)
unfolding bar
bar-Plain done none cols used = lit [] refl
bar-Plain done (some t) none used = lit [] refl
bar-Plain done (some t) (some cols) used =
    either-Plain (ltb (used + 8) cols)
      (cons-Plain b' ' refl
        (cons-Plain b'[' refl (append-Plain (filled_part-Plain _ _) (lit (b']' ∷ []) refl))))
      (lit [] refl)

module _ (F : Floats) (plain : PlainFloats F) where
  human-Plain : (n : ℕ) → Plain (human F n)
  unfolding human
  human-Plain n =
      either-Plain (leb (2 ^ 20) n)
        (append-Plain (plain.plain_tenths n (2 ^ 20)) (lit (codes " MiB") refl))
        (either-Plain (leb (2 ^ 10) n)
          (append-Plain (plain.plain_tenths n (2 ^ 10)) (lit (codes " KiB") refl))
          (append-Plain (show_count-Plain n) (lit (codes " B") refl)))

  amounts-Plain : (p : Progress) (total : Option ℕ) → Plain (amounts F p total)
  unfolding amounts pad_left
  amounts-Plain p none = human-Plain p.wire
  amounts-Plain p (some t) = append-Plain (human-Plain (min p.done t)) (
      cons-Plain b'/' refl (
        append-Plain (human-Plain t) (
          append-Plain (lit (codes " (") refl) (
            append-Plain
              (append-Plain (replicate-Plain _ b' ' refl) (show_count-Plain (percent p.done t)))
              (lit (codes "%)") refl)))))

  eta_text-Plain :
      (p : Progress) (elapsed : ℕ) (total : Option ℕ) → Plain (eta_text F p elapsed total)
  unfolding eta_text
  eta_text-Plain p elapsed none = lit [] refl
  eta_text-Plain p elapsed (some t) =
      either-Plain (F.moving p.wire elapsed && ltb p.done t)
        (append-Plain (lit (codes ", eta ") refl) (
          append-Plain (show_count-Plain (F.eta (t - p.done) p.wire elapsed))
            (lit (codes "s") refl)))
        (lit [] refl)

  files_text-Plain : (done : ℕ) (total : Option ℕ) → Plain (files_text F done total)
  unfolding files_text
  files_text-Plain done none = lit [] refl
  files_text-Plain done (some ft) =
      append-Plain (lit (codes ", files ") refl)
        (append-Plain (show_count-Plain (min done ft)) (cons-Plain b'/' refl (show_count-Plain ft)))

  heading-Plain : (p : Progress) → Plain p.label → Plain (heading F p)
  unfolding heading
  heading-Plain p l =
      append-Plain (lit (codes "cargo-remote: ") refl) (append-Plain l (lit (codes ": ") refl))

  counts-Plain : (p : Progress) (now : ℕ) → Plain p.label → Plain (counts F p now)
  unfolding counts
  counts-Plain p now l = append-Plain (heading-Plain p l) (
      append-Plain (amounts-Plain p (known_total p.total)) (
        append-Plain (lit (codes ", ") refl) (
          append-Plain (human-Plain (F.rate p.wire (now - p.start))) (
            append-Plain (lit (codes "/s") refl) (
              append-Plain (eta_text-Plain p (now - p.start) (known_total p.total))
                (files_text-Plain p.files_done p.files_total))))))

  pub render-Plain :
      (p : Progress) (now : ℕ) → Plain p.label → PlainStatus p.status → Plain (render F p now)
  unfolding render line_of
  render-Plain p now l st = fit-Plain p.cols _ (of p.status st)
    where
      of : (o : Option Text) → PlainStatus o → Plain (line_of F p now o)
      of none _ = append-Plain (counts-Plain p now l) (bar-Plain p.done _ p.cols _)
      of (some st) s = append-Plain (heading-Plain p l) s
