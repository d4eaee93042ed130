-- ===== src/Tests/ProgressRuns.antt =====
-- src/progress.rs: a line of a transfer.
use cargo_remote.Prelude.{
  arith, ℕ, ◌+◌, ◌≤◌, ◌<◌, ◌≡◌, refl, sym, ap, List, [], ◌∷◌, ◌++◌, Text, codes, true, false, none,
  some, length, subst,
}
use cargo_remote.Progress.{
  Progress, Floats, new_progress, counts, line_of, render, drop_progress, finish, summary_line,
}
use cargo_remote.Progress.Lines.{render-bar_cut}
use cargo_remote.Progress.Plain.{PlainFloats}
use cargo_remote.Progress.Terminal.{typed, Blank}
use cargo_remote.Progress.Rows.{Shows}
use cargo_remote.Progress.Shown.{
  Call, totals, show_status, hide_status, advanced, file_done, calls, last_line, calls-Shows,
}

abbrev floats : Floats
floats = record {
  tenths = λ n unit. codes "1.5";
  seconds = λ n. codes "2.0";
  rate = λ wire elapsed. 7;
  moving = λ wire elapsed. true;
  eta = λ left wire elapsed. 3;
}

floats-Plain : PlainFloats floats
floats-Plain = record {
  plain_tenths = λ n unit. record { no_return = refl };
  plain_seconds = λ n. record { no_return = refl };
}

-- A hundred of a thousand bytes, on a terminal of seventy cells.
abbrev half_way : Progress
half_way = record {
  label = codes "sync";
  live = true;
  verbose = false;
  cols = some 70;
  total = some 1000;
  done = 100;
  wire = 50;
  files_done = 0;
  files_total = none;
  status = none;
  start = 0;
  last_draw = 0;
  last_len = 0;
  finished = false;
}

half_way_line :
    counts floats half_way 5 ≡ codes "cargo-remote: sync: 100 B/1000 B (10%), 7 B/s, eta 3s"
unfolding counts cargo_remote.Progress.known_total
half_way_line = refl

half_way-length : length (counts floats half_way 5) ≡ 53
half_way-length = ap length half_way_line

render-bar_cut_example : line_of floats half_way 5 none ≡ render floats half_way 5 ++ (b']' ∷ [])
render-bar_cut_example =
    render-bar_cut floats half_way 5 999 70 refl refl refl
      (subst (λ n. n + 11 < 70) (sym half_way-length) (ground arith))
      (subst (λ n. 70 ≤ n + 33) (sym half_way-length) (ground arith))

abbrev some_calls : List (Call × ℕ)
some_calls =
    (totals (some 1000) (some 2), 100)
    ∷ (show_status (codes "scanning local files..."), 200)
    ∷ (hide_status, 300)
    ∷ (advanced 100 50, 400000000)
    ∷ (file_done, 800000000)
    ∷ []

calls-Shows_example :
    let r =
      calls floats floats-Plain some_calls (new_progress (codes "sync") true false (some 70) 0) in
    let screen = typed r.1 (0, []) in
    Shows
      (last_line floats floats-Plain [] some_calls
        (new_progress (codes "sync") true false (some 70) 0))
      r.0
      screen
    × (Blank (typed (drop_progress floats r.0).1 screen).1
        × ((summary : Text) (now : ℕ)
            → (cleared : Text) × (((finish floats summary now r.0).1
                  ≡ cleared ++ summary_line floats summary now r.0)
                × Blank (typed cleared screen).1)))
calls-Shows_example =
    calls-Shows floats floats-Plain (codes "sync") false (some 70) 0 some_calls 0 []
      (record { no_return = refl }) (tt, (record { no_return = refl }, (tt, (tt, (tt, tt))))) tt
