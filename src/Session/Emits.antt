-- ===== src/Session/Emits.antt =====
-- src/runner.rs: which events a piece of a run adds, what it gives, and what it keeps of the cell of
-- the agent.
use cargo_remote.Prelude.{
  ◌≡◌, refl, sym, ap, ◌∙◌, List, [], ◌∷◌, ◌++◌, Text, Bool, true, false, Option, none, some, Result,
  ok, err, All, All-append, append_assoc, append-nil, if◌then◌else◌,
}
use cargo_remote.Session.{SessionError, Event, Session, Run, record_event, go_on, ◌>>=◌, pure, lift}

-- The result is an error, or a value that `Q` holds of.
abbrev pub Gives : {A : Type 0} → (A → Type 0) → Result SessionError A → Type 0
Gives Q (ok a) = Q a
Gives Q (err e) = Unit {0}

abbrev pub Any : {A : Type 0} → A → Type 0
Any a = Unit {0}

-- The cell is empty, or holds no path, or the right one.
abbrev pub CellHolds : Text → Option (Option Text) → Type 0
CellHolds path none = Unit {0}
CellHolds path (some none) = Unit {0}
CellHolds path (some (some p)) = p ≡ path

pub Any-Gives : {A : Type 0} (r : Result SessionError A) → Gives Any r
Any-Gives (ok a) = tt
Any-Gives (err e) = tt

module _ (path : Text) where
  pub record Emitted {A : Type 0} (P : Event → Type 0) (Q : A → Type 0) (s : Session)
      (r : Result SessionError A × Session) : Type 0 where
    pub added : List Event
    pub appended : r.1.events ≡ s.events ++ added
    pub all_added : All P added
    pub gives : Gives Q r.0
    pub cell_kept : CellHolds path r.1.agent

  -- The events that `m` adds are such, and so is its result, when the cell is right before.
  abbrev pub Emits : {A : Type 0} → (Event → Type 0) → (A → Type 0) → Run A → Type 0
  Emits P Q m = (s : Session) → CellHolds path s.agent → Emitted P Q s (m s)

  pub pure-Emits :
      {A : Type 0} (P : Event → Type 0) (Q : A → Type 0) (a : A) → Q a → Emits P Q (pure a)
  pure-Emits P Q a q s c = record {
    added = [];
    appended = sym (append-nil s.events);
    all_added = tt;
    gives = q;
    cell_kept = c;
  }

  pub lift-Emits :
      {A : Type 0} (P : Event → Type 0) (Q : A → Type 0) (r : Result SessionError A)
      → Gives Q r
      → Emits P Q (lift r)
  lift-Emits P Q r q s c = record {
    added = [];
    appended = sym (append-nil s.events);
    all_added = tt;
    gives = q;
    cell_kept = c;
  }

  joined :
      {A : Type 0} (P : Event → Type 0) (Q : A → Type 0) (s t : Session) (es : List Event)
      (r : Result SessionError A × Session)
      → t.events ≡ s.events ++ es
      → All P es
      → Emitted P Q t r
      → Emitted P Q s r
  joined P Q s t es r at a e = record {
    added = es ++ e.added;
    appended = e.appended ∙ ap (λ h. h ++ e.added) at ∙ append_assoc s.events es e.added;
    all_added = All-append P es e.added a e.all_added;
    gives = e.gives;
    cell_kept = e.cell_kept;
  }

  pub bind-Emits :
      {A B : Type 0} (P : Event → Type 0) (Q : A → Type 0) (R : B → Type 0) (m : Run A)
      (k : A → Run B)
      → Emits P Q m
      → ((a : A) → Q a → Emits P R (k a))
      → Emits P R (m >>= k)
  unfolding go_on
  bind-Emits {A} {B} P Q R m k em ek s c = go (m s).0 (m s).1 (em s c)
    where
      go :
          (r : Result SessionError A) (t : Session)
          → Emitted P Q s (r, t)
          → Emitted P R s (go_on r t k)
      go (ok a) t e = joined P R s t e.added _ e.appended e.all_added (ek a e.gives t e.cell_kept)
      go (err x) t e = record {
        added = e.added;
        appended = e.appended;
        all_added = e.all_added;
        gives = tt;
        cell_kept = e.cell_kept;
      }

  pub if-Emits :
      {A : Type 0} (P : Event → Type 0) (Q : A → Type 0) (b : Bool) (m n : Run A)
      → Emits P Q m
      → Emits P Q n
      → Emits P Q (if b then m else n)
  if-Emits P Q true m n em en = em
  if-Emits P Q false m n em en = en

  -- One event, with any result.
  pub event-Emits :
      {A : Type 0} (P : Event → Type 0) (e : List Event → Event)
      (r : List Event → Result SessionError A)
      → ((h : List Event) → P (e h))
      → Emits P Any (λ s. (r s.events, record_event (e s.events) s))
  unfolding record_event
  event-Emits P e r h s c = record {
    added = e s.events ∷ [];
    appended = refl;
    all_added = (h s.events, tt);
    gives = Any-Gives (r s.events);
    cell_kept = c;
  }
