-- ===== src/Session/Succeeds.antt =====
-- src/runner.rs: which events a piece of a run has added when it succeeded.
use cargo_remote.Prelude.{
  ◌≡◌, refl, sym, ap, ◌∙◌, List, [], ◌∷◌, ◌++◌, Text, Bool, true, false, Result, ok, err, All,
  append_assoc, append-nil, if◌then◌else◌,
}
use cargo_remote.Session.{SessionError, Event, Session, Run, record_event, go_on, ◌>>=◌, pure, lift}
use cargo_remote.Session.Emits.{CellHolds, Emitted, Emits}

-- Of a success: its value and the events that were added are such.
abbrev pub Succeeded :
    {A : Type 0}
    → Text
    → (A → List Event → Type 0)
    → Session
    → Result SessionError A × Session
    → Type 0
Succeeded path D s (ok a, t) =
    (es : List Event) × ((t.events ≡ s.events ++ es) × (D a es × CellHolds path t.agent))
Succeeded path D s (err e, t) = Unit {0}

module _ (path : Text) where
  abbrev pub Succeeds : {A : Type 0} → (A → List Event → Type 0) → Run A → Type 0
  Succeeds D m = (s : Session) → CellHolds path s.agent → Succeeded path D s (m s)

  pub pure-Succeeds :
      {A : Type 0} (D : A → List Event → Type 0) (a : A) → D a [] → Succeeds D (pure a)
  pure-Succeeds D a d s c = ([], (sym (append-nil s.events), (d, c)))

  pub lift-Succeeds :
      {A : Type 0} (D : A → List Event → Type 0) (r : Result SessionError A)
      → ((a : A) → r ≡ ok a → D a [])
      → Succeeds D (lift r)
  lift-Succeeds D (ok a) d s c = ([], (sym (append-nil s.events), (d a refl, c)))
  lift-Succeeds D (err e) d s c = tt

  pub Emits-Succeeds :
      {A : Type 0} (P : Event → Type 0) (Q : A → Type 0) (m : Run A)
      → Emits path P Q m
      → Succeeds (λ a es. All P es × Q a) m
  Emits-Succeeds {A} P Q m em s c = go (m s).0 (m s).1 (em s c)
    where
      go :
          (r : Result SessionError A) (t : Session)
          → Emitted path P Q s (r, t)
          → Succeeded path (λ a es. All P es × Q a) s (r, t)
      go (ok a) t e = (e.added, (e.appended, ((e.all_added, e.gives), e.cell_kept)))
      go (err x) t e = tt

  pub bind-Succeeds :
      {A B : Type 0} (D : A → List Event → Type 0) (R : B → List Event → Type 0) (m : Run A)
      (k : A → Run B)
      → Succeeds D m
      → ((a : A) (es : List Event) → D a es → Succeeds (λ b more. R b (es ++ more)) (k a))
      → Succeeds R (m >>= k)
  unfolding go_on
  bind-Succeeds {A} {B} D R m k sm sk s c = go (m s).0 (m s).1 (sm s c)
    where
      joined :
          (t : Session) (es : List Event) (r : Result SessionError B) (u : Session)
          → t.events ≡ s.events ++ es
          → Succeeded path (λ b more. R b (es ++ more)) t (r, u)
          → Succeeded path R s (r, u)
      joined t es (ok b) u at (more, (after, (d, h))) =
          (es ++ more, (after ∙ ap (λ l. l ++ more) at ∙ append_assoc s.events es more, (d, h)))
      joined t es (err e) u at h = tt

      go :
          (r : Result SessionError A) (t : Session)
          → Succeeded path D s (r, t)
          → Succeeded path R s (go_on r t k)
      go (ok a) t (es, (at, (d, h))) = joined t es (k a t).0 (k a t).1 at (sk a es d t h)
      go (err e) t h = tt

  pub weaker-Succeeds :
      {A : Type 0} (D R : A → List Event → Type 0) (m : Run A)
      → ((a : A) (es : List Event) → D a es → R a es)
      → Succeeds D m
      → Succeeds R m
  weaker-Succeeds {A} D R m f sm s c = go (m s).0 (m s).1 (sm s c)
    where
      go :
          (r : Result SessionError A) (t : Session)
          → Succeeded path D s (r, t)
          → Succeeded path R s (r, t)
      go (ok a) t (es, (at, (d, h))) = (es, (at, (f a es d, h)))
      go (err e) t h = tt

  pub if-Succeeds :
      {A : Type 0} (D : A → List Event → Type 0) (b : Bool) (m n : Run A)
      → Succeeds D m
      → Succeeds D n
      → Succeeds D (if b then m else n)
  if-Succeeds D true m n hm hn = hm
  if-Succeeds D false m n hm hn = hn

  -- The branch of a run that is not dry.
  pub live-Succeeds :
      {A : Type 0} (D : A → List Event → Type 0) (b : Bool) (m n : Run A)
      → b ≡ false
      → Succeeds D n
      → Succeeds D (if b then m else n)
  live-Succeeds D true m n h hn = cc
  live-Succeeds D false m n h hn = hn

  -- One event, with its answer.
  pub event-Succeeds :
      {A : Type 0} (D : A → List Event → Type 0) (e : Result SessionError A → Event)
      (r : List Event → Result SessionError A)
      → ((a : A) → D a (e (ok a) ∷ []))
      → Succeeds D (λ s. (r s.events, record_event (e (r s.events)) s))
  unfolding record_event
  event-Succeeds {A} D e r d s c = go (r s.events)
    where
      go : (x : Result SessionError A) → Succeeded path D s (x, record_event (e x) s)
      go (ok a) = (e (ok a) ∷ [], (refl, (d a, c)))
      go (err y) = tt
