-- ===== src/Agent/PlanCovers.antt =====
-- src/agent.rs: what the plan of `Agent::sync` does with each local entry.
use cargo_remote.Prelude.{
  arith, ℕ, ◌≡◌, refl, sym, ap, ◌∙◌, not, false, if◌then◌else◌, text_eq→eq, List, [], ◌∷◌, ◌++◌,
  Text, Bool, true, ◌&&◌, Option, none, some, ◌==◌, ltb, leb, Bool-cases, inl, inr, ==_iff, subst,
}
use mathlib.Core.List.{Memᴰ}
use mathlib.Core.List.Memᴰ as Mem
use cargo_remote.Agent.Plan.{
  FileMeta, kind_link, same_link, same_entry, entry_at, Plan, empty_plan, plan_new, plan_known,
  plan_entry, plan_from, plan_sync, kind_dir, kind_file, verify_max,
}

-- A regular file whose content is compared although its length and its time agree.
unfoldable pub is_checked : FileMeta → Bool
is_checked m = (m.kind == kind_file) && (ltb 0 m.len && leb m.len verify_max)

-- What agrees in an entry and the one that the agent lists: length and time of a regular file, the
-- target of a link, the kind of anything else.
pub data Alike (m r : FileMeta) : Type 0 where
  file_alike :
      m.kind ≡ kind_file → r.kind ≡ kind_file → m.len ≡ r.len → m.mtime ≡ r.mtime → Alike m r
  link_alike : m.kind ≡ kind_link → r.kind ≡ kind_link → m.link ≡ r.link → Alike m r
  kind_alike : m.kind ≡ r.kind → (m.kind ≡ kind_file → ⊥) → (m.kind ≡ kind_link → ⊥) → Alike m r

same_link_alike : (s t : Option Text) → same_link s t ≡ true → s ≡ t
unfolding same_link
same_link_alike none none h = refl
same_link_alike none (some t) h = cc
same_link_alike (some s) none h = cc
same_link_alike (some s) (some t) h = ap some (text_eq→eq s t h)

same_entry-Alike : (m r : FileMeta) → same_entry m r ≡ true → Alike m r
unfolding same_entry
same_entry-Alike m r h =
    go (m.kind == r.kind) refl (m.kind == kind_file) refl (m.kind == kind_link) refl h
  where
    both : (a b : Bool) → (a && b) ≡ true → (a ≡ true) × (b ≡ true)
    both true b h = (refl, h)
    both false b h = cc

    differs : (a b : ℕ) → (a == b) ≡ false → a ≡ b → ⊥
    differs a b h e = ground arith

    go :
        (k : Bool)
        → (m.kind == r.kind) ≡ k
        → (f : Bool) → (m.kind == kind_file) ≡ f
        → (l : Bool) → (m.kind == kind_link) ≡ l
        → (if not k
            then false
            else if f
            then (m.len == r.len) && (m.mtime == r.mtime)
            else if l
            then same_link m.link r.link
            else true)
          ≡ true
        → Alike m r
    go false k f fe l le h = cc
    go true k true fe l le h =
        let (a, b) = both (m.len == r.len) (m.mtime == r.mtime) h in
        let kind = (==_iff m.kind kind_file).0 fe in
        file_alike kind (sym ((==_iff m.kind r.kind).0 k) ∙ kind) ((==_iff _ _).0 a)
          ((==_iff _ _).0 b)
    go true k false fe true le h =
        let kind = (==_iff m.kind kind_link).0 le in
        link_alike kind (sym ((==_iff m.kind r.kind).0 k) ∙ kind) (same_link_alike m.link r.link h)
    go true k false fe false le h =
        kind_alike ((==_iff m.kind r.kind).0 k) (λ e. differs _ _ fe e) (λ e. differs _ _ le e)

-- What the plan does with a local entry: a directory that the agent does not list is made, the
-- entry is sent, or the agent lists one that agrees, and then a small file is verified.
pub data Handled (entries : List FileMeta) (m : FileMeta) (plan : Plan) : Type 0 where
  made :
      entry_at entries m.path ≡ none
      → m.kind ≡ kind_dir
      → Memᴰ m.path plan.mkdirs
      → Handled entries m plan
  sent : Memᴰ m plan.sends → Handled entries m plan
  kept :
      (r : FileMeta)
      → entry_at entries m.path ≡ some r
      → Alike m r
      → (is_checked m ≡ true → Memᴰ m plan.verify)
      → Handled entries m plan

-- What was planned stays planned.
record Grows (old new : Plan) : Type 0 where
  mkdirs_stay : (p : Text) → Memᴰ p old.mkdirs → Memᴰ p new.mkdirs
  sends_stay : (m : FileMeta) → Memᴰ m old.sends → Memᴰ m new.sends
  verify_stay : (m : FileMeta) → Memᴰ m old.verify → Memᴰ m new.verify

stays :
    (entries : List FileMeta) (m : FileMeta) (old new : Plan)
    → Grows old new
    → Handled entries m old
    → Handled entries m new
stays entries m old new g (made e k h) = made e k (g.mkdirs_stay m.path h)
stays entries m old new g (sent h) = sent (g.sends_stay m h)
stays entries m old new g (kept r e s h) = kept r e s (λ c. g.verify_stay m (h c))

unchanged : (plan : Plan) → Grows plan plan
unchanged plan = record { mkdirs_stay = λ p h. h; sends_stay = λ m h. h; verify_stay = λ m h. h }

more_mkdirs : (p : Text) (plan : Plan) → Grows plan (record plan { mkdirs = plan.mkdirs ++ p ∷ [] })
more_mkdirs p plan = record {
  mkdirs_stay = λ q h. Mem.append_left (p ∷ []) h;
  sends_stay = λ n h. h;
  verify_stay = λ n h. h;
}

more_sends :
    (m : FileMeta) (wanted : List Text) (plan : Plan)
    → Grows plan (record plan { sends = plan.sends ++ m ∷ []; sig_wanted = wanted })
more_sends m wanted plan = record {
  mkdirs_stay = λ p h. h;
  sends_stay = λ n h. Mem.append_left (m ∷ []) h;
  verify_stay = λ n h. h;
}

more_verify :
    (m : FileMeta) (plan : Plan) → Grows plan (record plan { verify = plan.verify ++ m ∷ [] })
more_verify m plan = record {
  mkdirs_stay = λ p h. h;
  sends_stay = λ n h. h;
  verify_stay = λ n h. Mem.append_left (m ∷ []) h;
}

last_of : {A : Type 0} (x : A) (xs : List A) → Memᴰ x (xs ++ x ∷ [])
last_of x xs = Mem.append_right xs (Mem.head refl)

-- One entry: the plan grows, and the entry is handled.
Step : List FileMeta → FileMeta → Plan → Plan → Type 0
Step entries m old new = Grows old new × Handled entries m new

plan_new-Step :
    (entries : List FileMeta) (m : FileMeta) (plan : Plan)
    → entry_at entries m.path ≡ none
    → Step entries m plan (plan_new m plan)
unfolding Step plan_new
plan_new-Step entries m plan e = elim (Bool-cases (m.kind == kind_dir)) [
  | inl d ↦ rw d (more_mkdirs m.path plan, made e ((==_iff _ _).0 d) (last_of m.path plan.mkdirs))
  | inr d ↦ rw d (more_sends m plan.sig_wanted plan, sent (last_of m plan.sends))
]

plan_known-Step :
    (entries : List FileMeta) (m r : FileMeta) (plan : Plan)
    → entry_at entries m.path ≡ some r
    → Step entries m plan (plan_known m r plan)
unfolding Step plan_known is_checked
plan_known-Step entries m r plan e = elim (Bool-cases (same_entry m r)) [
  | inr d ↦ rw d (more_sends m _ plan, sent (last_of m plan.sends))
  | inl d ↦ elim (Bool-cases (is_checked m)) [
    | inl c ↦
        rw (d, c)
          (more_verify m plan, kept r e (same_entry-Alike m r d) (λ _. last_of m plan.verify))
    | inr c ↦ rw (d, c) (unchanged plan, kept r e (same_entry-Alike m r d) (λ u. cc))
  ]
]

plan_entry-Step :
    (entries : List FileMeta) (m : FileMeta) (plan : Plan)
    → Step entries m plan (plan_entry entries m plan)
unfolding plan_entry Step
plan_entry-Step entries m plan = go (entry_at entries m.path) refl
  where
    go :
        (found : Option FileMeta)
        → entry_at entries m.path ≡ found
        → Step entries m plan (plan_entry entries m plan)
    go none e = rw (e, plan_entry) (plan_new-Step entries m plan e)
    go (some r) e = rw (e, plan_entry) (plan_known-Step entries m r plan e)

Grows-trans : (a b c : Plan) → Grows a b → Grows b c → Grows a c
Grows-trans a b c g h = record {
  mkdirs_stay = λ p k. h.mkdirs_stay p (g.mkdirs_stay p k);
  sends_stay = λ m k. h.sends_stay m (g.sends_stay m k);
  verify_stay = λ m k. h.verify_stay m (g.verify_stay m k);
}

plan_from-Handled :
    (entries rest : List FileMeta) (plan : Plan)
    → Grows plan (plan_from entries rest plan)
      × ((m : FileMeta) → Memᴰ m rest → Handled entries m (plan_from entries rest plan))
unfolding plan_from Step
plan_from-Handled entries [] plan = (unchanged plan, λ m h. absurd (Mem.not-nil h))
plan_from-Handled entries (x ∷ rest) plan =
    let next = plan_entry entries x plan in
    let end = plan_from entries rest next in
    let (grown, now) = plan_entry-Step entries x plan in
    let (more, later) = plan_from-Handled entries rest next in
    (
      Grows-trans plan next end grown more,
      λ m h. elim (Mem.cases_cons h) [
        | inl e ↦ subst (λ y. Handled entries y end) (sym e) (stays entries x next end more now)
        | inr k ↦ later m k
      ],
    )

-- `sync` forgets no local entry: whatever the agent lists, each is a directory that will be made
-- because the agent does not list it, or it is sent, or the agent lists an entry of the same kind
-- whose length and time, or whose link, agree, and then a file of 1 byte to 1 MiB is verified.
pub plan_sync-Handled :
    (locals entries : List FileMeta) (m : FileMeta)
    → Memᴰ m locals
    → Handled entries m (plan_sync locals entries)
unfolding plan_sync
plan_sync-Handled locals entries m h = (plan_from-Handled entries locals empty_plan).1 m h
