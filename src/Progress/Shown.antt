-- ===== src/Progress/Shown.antt =====
-- src/progress.rs: what a terminal shows while a transfer runs, and that the line goes away.
use cargo_remote.Prelude.{
  arith, leb, some, none, ◌+◌, ◌%◌, ◌^◌, ℕ, ◌-◌, ◌≡◌, refl, sym, ap, ◌∙◌, List, [], ◌∷◌, ◌++◌, Text,
  Bool, true, false, ◌&&◌, ◌||◌, not, Option, if◌then◌else◌, ltb, length, drop, replicate, All,
  All-append, subst,
}
use cargo_remote.Progress.{
  Progress, Floats, redraw, new_progress, render, draw, clear_line, set_totals, set_status,
  clear_status, advance, add_wire, inc_file, drop_progress, finish, summary_line,
}
use cargo_remote.Progress.Terminal.{
  Screen, typed, Blank, typed-return, typed-append, replicate-Blank, replicate-no_return,
}
use cargo_remote.Progress.Plain.{Plain, PlainFloats, PlainStatus, render-Plain}
use cargo_remote.Progress.Rows.{Shows, Shows-Blank, length-replicate, overwrites}

-- The calls that a transfer makes of its `Progress`, each at a time of the clock.
pub data Call : Type 0 where
  totals : Option ℕ → Option ℕ → Call
  show_status : Text → Call
  hide_status : Call
  advanced : ℕ → ℕ → Call
  wired : ℕ → Call
  file_done : Call

-- The text of a call has no carriage return.
abbrev pub PlainCall : Call × ℕ → Type 0
PlainCall (show_status msg, now) = Plain msg
PlainCall _ = Unit {0}

module _ (F : Floats) (plain : PlainFloats F) where
  unfoldable pub call : Call → ℕ → Progress → Progress × Text
  call (totals bytes files) now p = (set_totals F bytes files p, [])
  call (show_status msg) now p = set_status F msg now p
  call hide_status now p = (clear_status F p, [])
  call (advanced planned wire) now p = advance F planned wire now p
  call (wired n) now p = add_wire F n now p
  call file_done now p = inc_file F now p

  -- The calls one after the other, with all that they write.
  unfoldable pub calls : List (Call × ℕ) → Progress → Progress × Text
  unfolding call
  calls [] p = (p, [])
  calls ((c, now) ∷ cs) p =
      let r = call c now p in let rest = calls cs r.0 in (rest.0, r.1 ++ rest.1)

  -- What every call keeps: the texts have no carriage return, the line is live, and it is shown.
  pub record Live (front : Text) (p : Progress) (screen : Screen) : Type 0 where
    pub is_live : p.live ≡ true
    pub unfinished : p.finished ≡ false
    pub label_plain : Plain p.label
    pub status_plain : PlainStatus p.status
    pub shown : Shows front p screen

  -- Whether a draw is due, and the state that a call draws, if it draws.
  abbrev due : Bool → ℕ → Progress → Bool
  due force now p = p.live && (force || leb redraw (now - p.last_draw))

  abbrev pub changed : Call → Progress → Progress
  changed (totals bytes files) p = record p { total = bytes; files_total = files }
  changed (show_status msg) p = record p { status = some msg }
  changed hide_status p = record p { status = none }
  changed (advanced planned wire) p = record p {
    done = (p.done + planned) % 2 ^ 64;
    wire = (p.wire + wire) % 2 ^ 64;
  }
  changed (wired n) p = record p { done = (p.done + 0) % 2 ^ 64; wire = (p.wire + n) % 2 ^ 64 }
  changed file_done p = record p { files_done = (p.files_done + 1) % 2 ^ 64 }

  -- A status is drawn at once, and progress when the last draw is 100 ms ago.
  abbrev pub draws : Call → ℕ → Progress → Bool
  draws (totals bytes files) now p = false
  draws (show_status msg) now p = due true now p
  draws hide_status now p = false
  draws _ now p = due false now p

  -- The line that was drawn last, by the calls.
  abbrev pub last_line : Text → List (Call × ℕ) → Progress → Text
  last_line front [] p = front
  last_line front ((c, now) ∷ cs) p =
      last_line (if draws c now p then render F (changed c p) now else front) cs (call c now p).0

  due_or_not :
      (live force : Bool) (a : ℕ)
      → (not live || (not force && ltb a redraw)) ≡ not (live && (force || leb redraw a))
  due_or_not false force a = refl
  due_or_not true true a = refl
  due_or_not true false a = ground arith

  draw-Live :
      (force : Bool) (now : ℕ) (front : Text) (p : Progress) (screen : Screen)
      → Live front p screen
      → Live
          (if due force now p then render F p now else front)
          (draw F force now p).0
          (typed (draw F force now p).1 screen)
  unfolding draw typed
  draw-Live force now front p screen l =
      go (not p.live || (not force && ltb (now - p.last_draw) redraw)) (due force now p)
        (due_or_not p.live force (now - p.last_draw))
    where
      line : Text
      line = render F p now

      drawn : Progress × Text
      drawn = (
        record p { last_draw = now; last_len = length line },
        13 ∷ (line ++ replicate (p.last_len - length line) b' '),
      )

      go :
          (b d : Bool)
          → b ≡ not d
          → Live
              (if d then line else front)
              (if b then (p, []) else drawn).0
              (typed (if b then (p, []) else drawn).1 screen)
      go true true h = cc
      go true false h = l
      go false false h = cc
      go false true h = record {
        is_live = l.is_live;
        unfinished = l.unfinished;
        label_plain = l.label_plain;
        status_plain = l.status_plain;
        shown = record {
          front_length = refl;
          on_row =
              overwrites front p line screen
                (render-Plain F plain p now l.label_plain l.status_plain).no_return l.shown;
        };
      }

  -- A state that differs in its counters only.
  counted :
      (front : Text) (p q : Progress) (screen : Screen)
      → q.live ≡ p.live
      → q.finished ≡ p.finished
      → q.label ≡ p.label
      → q.last_len ≡ p.last_len
      → PlainStatus q.status
      → Live front p screen
      → Live front q screen
  counted front p q screen live fin lab len st l = record {
    is_live = live ∙ l.is_live;
    unfinished = fin ∙ l.unfinished;
    label_plain = subst Plain (sym lab) l.label_plain;
    status_plain = st;
    shown = record { front_length = l.shown.front_length ∙ sym len; on_row = l.shown.on_row };
  }

  call-Live :
      (c : Call) (now : ℕ) (front : Text) (p : Progress) (screen : Screen)
      → PlainCall (c, now)
      → Live front p screen
      → Live
          (if draws c now p then render F (changed c p) now else front)
          (call c now p).0
          (typed (call c now p).1 screen)
  unfolding call set_totals set_status clear_status advance add_wire inc_file typed
  call-Live (totals bytes files) now front p screen h l =
      counted front p _ screen refl refl refl refl l.status_plain l
  call-Live (show_status msg) now front p screen h l =
      draw-Live true now front _ screen (counted front p _ screen refl refl refl refl h l)
  call-Live hide_status now front p screen h l = counted front p _ screen refl refl refl refl tt l
  call-Live (advanced planned wire) now front p screen h l =
      draw-Live false now front _ screen
        (counted front p _ screen refl refl refl refl l.status_plain l)
  call-Live (wired n) now front p screen h l =
      draw-Live false now front _ screen
        (counted front p _ screen refl refl refl refl l.status_plain l)
  call-Live file_done now front p screen h l =
      draw-Live false now front _ screen
        (counted front p _ screen refl refl refl refl l.status_plain l)

  calls-Live :
      (cs : List (Call × ℕ)) (front : Text) (p : Progress) (screen : Screen)
      → All PlainCall cs
      → Live front p screen
      → Live (last_line front cs p) (calls cs p).0 (typed (calls cs p).1 screen)
  unfolding calls typed
  calls-Live [] front p screen h l = l
  calls-Live ((c, now) ∷ cs) front p screen (hc, hs) l =
      subst (Live _ _) (sym (typed-append (call c now p).1 (calls cs (call c now p).0).1 screen))
        (calls-Live cs _ (call c now p).0 _ hs (call-Live c now front p screen hc l))

  clear_line-Blank :
      (front : Text) (p : Progress) (screen : Screen)
      → Shows front p screen
      → Blank (typed (clear_line F p).1 screen).1
  unfolding clear_line typed
  clear_line-Blank front p (at, row) s = go (ltb 0 p.last_len) refl
    where
      cleared :
          typed (13 ∷ (replicate p.last_len b' ' ++ (13 ∷ []))) (at, row)
          ≡ (0, replicate p.last_len b' ' ++ drop p.last_len row)
      cleared =
          typed-append (13 ∷ replicate p.last_len b' ') (13 ∷ []) (at, row)
          ∙ ap (typed (13 ∷ []))
              (typed-return (replicate p.last_len b' ') row at (replicate-no_return p.last_len))
          ∙ ap (λ n. (0, replicate p.last_len b' ' ++ drop n row))
              (length-replicate p.last_len b' ')

      nothing_drawn : ltb 0 p.last_len ≡ false → p.last_len ≡ 0
      nothing_drawn h = ground arith

      written : Bool → Progress × Text
      written b =
          if b
          then (record p { last_len = 0 }, 13 ∷ (replicate p.last_len b' ' ++ (13 ∷ [])))
          else (p, [])

      go : (b : Bool) → ltb 0 p.last_len ≡ b → Blank (typed (written b).1 (at, row)).1
      go true h =
          subst (λ r. Blank r.1) (sym cleared)
            (All-append _ _ _ (replicate-Blank p.last_len) (Shows-Blank front p (at, row) s))
      go false h =
          subst (λ n. Blank (drop n row)) (nothing_drawn h) (Shows-Blank front p (at, row) s)

  dropped-Blank :
      (front : Text) (p : Progress) (screen : Screen)
      → Live front p screen
      → Blank (typed (drop_progress F p).1 screen).1
  unfolding drop_progress
  dropped-Blank front p screen l =
      go (p.live && not p.finished) (ap (λ b. b && not p.finished) l.is_live ∙ ap not l.unfinished)
    where
      written : Bool → Progress × Text
      written b = if b then clear_line F p else (p, [])

      go : (b : Bool) → b ≡ true → Blank (typed (written b).1 screen).1
      go true h = clear_line-Blank front p screen l.shown
      go false h = cc

  finished-Blank :
      (front : Text) (p : Progress) (screen : Screen) (summary : Text) (now : ℕ)
      → Live front p screen
      → (cleared : Text) × (((finish F summary now p).1 ≡ cleared ++ summary_line F summary now p)
          × Blank (typed cleared screen).1)
  unfolding finish
  finished-Blank front p screen summary now l = (
    cleared,
    (
      ap (λ b. (written b).1) l.is_live,
      clear_line-Blank front (record p { finished = true }) screen still,
    ),
  )
    where
      still : Shows front (record p { finished = true }) screen
      still = record { front_length = l.shown.front_length; on_row = l.shown.on_row }

      cleared : Text
      cleared = (clear_line F (record p { finished = true })).1

      written : Bool → Progress × Text
      written b =
          if b
          then (
            (clear_line F (record p { finished = true })).0,
            cleared ++ summary_line F summary now p,
          )
          else if p.verbose
          then (record p { finished = true }, summary_line F summary now p)
          else (record p { finished = true }, [])

  -- A line that is live, on a row that is blank, and any calls of it whose texts have no carriage
  -- return: the row holds the line of the last call that draws, as it was then, and blanks behind it, however
  -- long earlier lines were;
  -- when the value is dropped the row is blank again; and `finish` makes it blank before it writes
  -- the summary, and nothing else.
  pub calls-Shows :
      (label : Text) (verbose : Bool) (width : Option ℕ) (start : ℕ) (cs : List (Call × ℕ)) (at : ℕ)
      (row : Text)
      → Plain label
      → All PlainCall cs
      → Blank row
      → let r = calls cs (new_progress label true verbose width start) in
        let screen = typed r.1 (at, row) in
        Shows (last_line [] cs (new_progress label true verbose width start)) r.0 screen
        × (Blank (typed (drop_progress F r.0).1 screen).1
            × ((summary : Text) (now : ℕ)
                → (cleared : Text) × (((finish F summary now r.0).1
                      ≡ cleared ++ summary_line F summary now r.0)
                    × Blank (typed cleared screen).1)))
  unfolding new_progress
  calls-Shows label verbose width start cs at row pl pc blank =
      let l = calls-Live cs [] (new_progress label true verbose width start) (at, row) pc started in
      (l.shown, (dropped-Blank _ _ _ l, λ summary now. finished-Blank _ _ _ summary now l))
    where
      started : Live [] (new_progress label true verbose width start) (at, row)
      started = record {
        is_live = refl;
        unfinished = refl;
        label_plain = pl;
        status_plain = tt;
        shown = record {
          front_length = refl;
          on_row = record { behind = row; row_eq = refl; behind_blank = blank };
        };
      }
