-- ===== src/Progress.antt =====
-- src/progress.rs: the line of a transfer on the terminal. The clock is an argument, in nanoseconds,
-- and the texts and numbers that are computed with `f64` are a parameter.

pub mod Lines
pub mod Plain
pub mod Rows
pub mod Shown
pub mod Terminal
use cargo_remote.Prelude.{
  ℕ, zero, suc, ◌+◌, ◌-◌, ◌*◌, ◌/◌, ◌%◌, ◌^◌, min, List, [], ◌∷◌, ◌++◌, Text, codes, Bool, true,
  false, ◌&&◌, ◌||◌, not, Option, none, some, if◌then◌else◌, ltb, leb, length, take, replicate,
}
use cargo_remote.RunLock.{decimal}

-- What `f64` gives: `format!("{:.1}", n as f64 / unit as f64)` for a count and a unit, `{secs:.1}`
-- for an elapsed time, and `rate() as u64`, `rate() > 0.0` and the seconds to go for the bytes on the
-- wire and the elapsed time.
pub record Floats : Type 0 where
  pub tenths : ℕ → ℕ → Text
  pub seconds : ℕ → Text
  pub rate : ℕ → ℕ → ℕ
  pub moving : ℕ → ℕ → Bool
  pub eta : ℕ → ℕ → ℕ → ℕ

-- `REDRAW`, and the zero of the clock is so long ago
abbrev pub redraw : ℕ
redraw = 100000000

pub record Progress : Type 0 where
  pub label : Text
  pub live : Bool
  pub verbose : Bool
  pub cols : Option ℕ
  pub total : Option ℕ
  pub done : ℕ
  pub wire : ℕ
  pub files_done : ℕ
  pub files_total : Option ℕ
  pub status : Option Text
  pub start : ℕ
  pub last_draw : ℕ
  pub last_len : ℕ
  pub finished : Bool

-- `Progress::new`, with `runner.sync_status`, `runner.verbose` and the width of the terminal
unfoldable pub new_progress : Text → Bool → Bool → Option ℕ → ℕ → Progress
new_progress label sync_status verbose width now = record {
  label = label;
  live = sync_status;
  verbose = verbose;
  cols = if sync_status then width else none;
  total = none;
  done = 0;
  wire = 0;
  files_done = 0;
  files_total = none;
  status = none;
  start = now;
  last_draw = now - redraw;
  last_len = 0;
  finished = false;
}

-- a `u64` has at most twenty digits
unfoldable pub show_count : ℕ → Text
unfolding decimal
show_count n = decimal 20 n

-- `{:>2}`
unfoldable pub pad_left : ℕ → Text → Text
pad_left width s = replicate (width - length s) b' ' ++ s

-- A total of zero is no total.
unfoldable pub known_total : Option ℕ → Option ℕ
known_total none = none
known_total (some zero) = none
known_total (some (suc t)) = some (suc t)

unfoldable pub percent : ℕ → ℕ → ℕ
percent done t = (min done t * 100) % 2 ^ 64 / t

-- Truncated to the width of the terminal less one, when it is known.
unfoldable pub fit : Option ℕ → Text → Text
fit none s = s
fit (some cols) s = if ltb (cols - 1) (length s) then take (cols - 1) s else s

unfoldable pub filled_part : ℕ → ℕ → Text
filled_part filled width =
    if leb width filled
    then replicate width b'='
    else replicate filled b'=' ++ (b'>' ∷ replicate (width - filled - 1) b' ')

-- How many of `width` cells are full.
unfoldable pub filled_cells : ℕ → ℕ → ℕ → ℕ
filled_cells done t width = min done t * width / t

-- A bar, when there is room for ten cells of it behind a line of `used - 3` characters.
unfoldable pub bar : ℕ → Option ℕ → Option ℕ → ℕ → Text
unfolding filled_part filled_cells
bar done none cols used = []
bar done (some t) none used = []
bar done (some t) (some cols) used =
    if ltb (used + 8) cols
    then (let width = min (cols - used) 30 in
        b' ' ∷ (b'[' ∷ (filled_part (filled_cells done t width) width ++ (b']' ∷ []))))
    else []

module _ (F : Floats) where
  -- `human` of src/transfer.rs
  unfoldable pub human : ℕ → Text
  unfolding show_count
  human n =
      if leb (2 ^ 20) n
      then F.tenths n (2 ^ 20) ++ codes " MiB"
      else if leb (2 ^ 10) n
      then F.tenths n (2 ^ 10) ++ codes " KiB"
      else show_count n ++ codes " B"

  unfoldable pub amounts : Progress → Option ℕ → Text
  unfolding human percent pad_left show_count
  amounts p none = human p.wire
  amounts p (some t) =
      human (min p.done t)
      ++ (b'/'
          ∷ (human t ++ (codes " (" ++ (pad_left 2 (show_count (percent p.done t)) ++ codes "%)"))))

  unfoldable pub eta_text : Progress → ℕ → Option ℕ → Text
  unfolding show_count
  eta_text p elapsed none = []
  eta_text p elapsed (some t) =
      if F.moving p.wire elapsed && ltb p.done t
      then codes ", eta " ++ (show_count (F.eta (t - p.done) p.wire elapsed) ++ codes "s")
      else []

  unfoldable pub files_text : ℕ → Option ℕ → Text
  unfolding show_count
  files_text files_done none = []
  files_text files_done (some ft) =
      codes ", files " ++ (show_count (min files_done ft) ++ (b'/' ∷ show_count ft))

  unfoldable pub heading : Progress → Text
  heading p = codes "cargo-remote: " ++ (p.label ++ codes ": ")

  -- The line up to the bar.
  unfoldable pub counts : Progress → ℕ → Text
  unfolding heading amounts human eta_text files_text
  counts p now =
      heading p
      ++ (amounts p (known_total p.total)
          ++ (codes ", "
              ++ (human (F.rate p.wire (now - p.start))
                  ++ (codes "/s"
                      ++ (eta_text p (now - p.start) (known_total p.total)
                          ++ files_text p.files_done p.files_total)))))

  unfoldable pub line_of : Progress → ℕ → Option Text → Text
  unfolding heading counts bar
  line_of p now (some st) = heading p ++ st
  line_of p now none =
      let s = counts p now in s ++ bar p.done (known_total p.total) p.cols (length s + 3)

  unfoldable pub render : Progress → ℕ → Text
  unfolding fit line_of
  render p now = fit p.cols (line_of p now p.status)

  -- An operation gives the new state and what it writes to the standard error.
  unfoldable pub draw : Bool → ℕ → Progress → Progress × Text
  unfolding render
  draw force now p =
      if not p.live || (not force && ltb (now - p.last_draw) redraw)
      then (p, [])
      else (let line = render p now in
          (
            record p { last_draw = now; last_len = length line },
            13 ∷ (line ++ replicate (p.last_len - length line) b' '),
          ))

  unfoldable pub clear_line : Progress → Progress × Text
  clear_line p =
      if ltb 0 p.last_len
      then (record p { last_len = 0 }, 13 ∷ (replicate p.last_len b' ' ++ (13 ∷ [])))
      else (p, [])

  unfoldable pub set_totals : Option ℕ → Option ℕ → Progress → Progress
  set_totals bytes files p = record p { total = bytes; files_total = files }

  unfoldable pub set_status : Text → ℕ → Progress → Progress × Text
  unfolding draw
  set_status msg now p = draw true now (record p { status = some msg })

  unfoldable pub clear_status : Progress → Progress
  clear_status p = record p { status = none }

  unfoldable pub advance : ℕ → ℕ → ℕ → Progress → Progress × Text
  unfolding draw
  advance planned wire now p =
      draw false now
        (record p { done = (p.done + planned) % 2 ^ 64; wire = (p.wire + wire) % 2 ^ 64 })

  unfoldable pub add_wire : ℕ → ℕ → Progress → Progress × Text
  unfolding advance
  add_wire n now p = advance 0 n now p

  unfoldable pub inc_file : ℕ → Progress → Progress × Text
  unfolding draw
  inc_file now p = draw false now (record p { files_done = (p.files_done + 1) % 2 ^ 64 })

  unfoldable pub timing : Progress → ℕ → Text
  unfolding human
  timing p elapsed =
      if ltb 0 p.wire
      then codes " in "
        ++ (F.seconds elapsed
            ++ (codes "s"
                ++ (if F.moving p.wire elapsed
                    then codes " (" ++ (human (F.rate p.wire elapsed) ++ codes "/s)")
                    else [])))
      else []

  unfoldable pub summary_line : Text → ℕ → Progress → Text
  unfolding heading timing
  summary_line summary now p = heading p ++ (summary ++ (timing p (now - p.start) ++ (10 ∷ [])))

  -- `Drop for Progress`
  unfoldable pub drop_progress : Progress → Progress × Text
  unfolding clear_line
  drop_progress p = if p.live && not p.finished then clear_line p else (p, [])

  -- `finish`; the value that is dropped at its end is finished, and writes nothing.
  unfoldable pub finish : Text → ℕ → Progress → Progress × Text
  unfolding clear_line summary_line
  finish summary now p =
      if p.live
      then (let (q, cleared) = clear_line (record p { finished = true }) in
          (q, cleared ++ summary_line summary now p))
      else if p.verbose
      then (record p { finished = true }, summary_line summary now p)
      else (record p { finished = true }, [])
