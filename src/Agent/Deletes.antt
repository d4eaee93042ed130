-- ===== src/Agent/Deletes.antt =====
-- src/agent.rs: the order and the contents of the DELETE frame that `Agent::sync` sends.
use cargo_remote.Prelude.{
  ℕ, ◌+◌, ◌≤◌, ◌<◌, ◌≡◌, refl, ap, List, [], ◌∷◌, ◌++◌, Text, Bool, true, false, Option, none, some,
  if◌then◌else◌, All, arith, Bool-cases, inl, inr, is_some, or_else, text_eq, text_eq_refl, subst,
  sym, ◌∙◌,
}
use mathlib.Core.Bool.{true≢false}
use mathlib.Core.List.{Memᴰ}
use mathlib.Core.List.Memᴰ as Mem
use cargo_remote.Agent.Plan.{
  FileMeta, slashes, goes_first, insert_entry, sort_entries, only_remote, deletes, entry_at,
}

slashes-append : (s t : Text) → slashes (s ++ t) ≡ slashes s + slashes t
unfolding slashes
slashes-append [] t = omega arith
slashes-append (c ∷ s) t = ground (arith, slashes-append s t)

-- `below` lies in the directory `dir`, at any depth.
unfoldable pub IsBelow : Text → Text → Type 0
IsBelow below dir = (rest : Text) × (below ≡ dir ++ b'/' ∷ rest)

below_deeper : (below dir : Text) → IsBelow below dir → slashes dir < slashes below
unfolding IsBelow slashes
below_deeper below dir (rest, e) =
    omega (arith, ap (λ s. slashes s) e, slashes-append dir (b'/' ∷ rest))

-- No entry stands before one with more slashes.
abbrev Descends : List FileMeta → Type 0
Descends [] = Unit {0}
Descends (a ∷ entries) = All (λ b. slashes b.path ≤ slashes a.path) entries × Descends entries

first_deeper : (a b : FileMeta) → goes_first a b ≡ true → slashes b.path ≤ slashes a.path
unfolding goes_first
first_deeper a b h = ground arith

later_deeper : (a b : FileMeta) → goes_first a b ≡ false → slashes a.path ≤ slashes b.path
unfolding goes_first
later_deeper a b h = ground arith

weaken :
    (entries : List FileMeta) (n k : ℕ)
    → n ≤ k
    → All (λ b. slashes b.path ≤ n) entries
    → All (λ b. slashes b.path ≤ k) entries
weaken [] n k l h = tt
weaken (b ∷ entries) n k l (p, h) = (omega arith, weaken entries n k l h)

insert_bound :
    (a : FileMeta) (entries : List FileMeta) (k : ℕ)
    → slashes a.path ≤ k
    → All (λ b. slashes b.path ≤ k) entries
    → All (λ b. slashes b.path ≤ k) (insert_entry a entries)
unfolding insert_entry
insert_bound a [] k l h = (l, tt)
insert_bound a (b ∷ entries) k l (p, h) = elim (Bool-cases (goes_first a b)) [
  | inl e ↦ rw e (l, (p, h))
  | inr e ↦ rw e (p, insert_bound a entries k l h)
]

insert-Descends :
    (a : FileMeta) (entries : List FileMeta) → Descends entries → Descends (insert_entry a entries)
unfolding insert_entry
insert-Descends a [] h = (tt, tt)
insert-Descends a (b ∷ entries) (p, h) = elim (Bool-cases (goes_first a b)) [
  | inl e ↦
      let l = first_deeper a b e in
      rw e ((l, weaken entries (slashes b.path) (slashes a.path) l p), (p, h))
  | inr e ↦
      rw e (
        insert_bound a entries (slashes b.path) (later_deeper a b e) p,
        insert-Descends a entries h,
      )
]

sort_entries-Descends : (entries : List FileMeta) → Descends (sort_entries entries)
unfolding sort_entries
sort_entries-Descends [] = tt
sort_entries-Descends (a ∷ entries) =
    insert-Descends a (sort_entries entries) (sort_entries-Descends entries)

-- No directory stands before anything that lies in it.
unfoldable pub ChildrenFirst : List FileMeta → Type 0
ChildrenFirst [] = Unit {0}
ChildrenFirst (a ∷ entries) = All (λ b. ¬ (IsBelow b.path a.path)) entries × ChildrenFirst entries

not-IsBelow :
    (a : FileMeta) (entries : List FileMeta)
    → All (λ b. slashes b.path ≤ slashes a.path) entries
    → All (λ b. ¬ (IsBelow b.path a.path)) entries
not-IsBelow a [] h = tt
not-IsBelow a (b ∷ entries) (p, h) =
    ((λ u. absurd (omega (arith, below_deeper b.path a.path u))), not-IsBelow a entries h)

Descends-ChildrenFirst : (entries : List FileMeta) → Descends entries → ChildrenFirst entries
unfolding ChildrenFirst
Descends-ChildrenFirst [] h = tt
Descends-ChildrenFirst (a ∷ entries) (p, h) =
    (not-IsBelow a entries p, Descends-ChildrenFirst entries h)

-- In the list of deletions everything that lies in a directory stands before the directory, so
-- that the agent, which takes the paths in order, finds directories that it has emptied.
pub deletes-ChildrenFirst :
    (delete : Bool) (locals entries : List FileMeta) → ChildrenFirst (deletes delete locals entries)
unfolding deletes ChildrenFirst
deletes-ChildrenFirst false locals entries = tt
deletes-ChildrenFirst true locals entries =
    Descends-ChildrenFirst _ (sort_entries-Descends (only_remote locals entries))

some_last : (o : Option FileMeta) (x : FileMeta) → is_some (or_else o (some x)) ≡ true
some_last none x = refl
some_last (some y) x = refl

some_first : (o p : Option FileMeta) → is_some o ≡ true → is_some (or_else o p) ≡ true
some_first none p h = cc
some_first (some y) p h = refl

-- A local entry's path has an entry in the map of the local tree.
entry_at-some :
    (locals : List FileMeta) (m : FileMeta)
    → Memᴰ m locals
    → is_some (entry_at locals m.path) ≡ true
unfolding entry_at
entry_at-some [] m h = absurd (Mem.not-nil h)
entry_at-some (x ∷ locals) m h = elim (Mem.cases_cons h) [
  | inl e ↦
      let same : text_eq x.path m.path ≡ true =
        subst (λ y. text_eq y.path m.path ≡ true) e (text_eq_refl m.path) in
      rw same (some_last (entry_at locals m.path) x)
  | inr k ↦ some_first (entry_at locals m.path) _ (entry_at-some locals m k)
]

only_remote_mem :
    (locals entries : List FileMeta) (r : FileMeta)
    → Memᴰ r (only_remote locals entries)
    → Memᴰ r entries × (is_some (entry_at locals r.path) ≡ false)
unfolding only_remote
only_remote_mem locals [] r h = absurd (Mem.not-nil h)
only_remote_mem locals (x ∷ entries) r h =
    go (λ k. only_remote_mem locals entries r k) (is_some (entry_at locals x.path)) refl h
  where
    rest : List FileMeta
    rest = only_remote locals entries

    go :
        (Memᴰ r rest → Memᴰ r entries × (is_some (entry_at locals r.path) ≡ false))
        → (b : Bool) → is_some (entry_at locals x.path) ≡ b
        → Memᴰ r (if b then rest else x ∷ rest)
        → Memᴰ r (x ∷ entries) × (is_some (entry_at locals r.path) ≡ false)
    go ih true e k = let (p, q) = ih k in (Mem.tail p, q)
    go ih false e k = elim (Mem.cases_cons k) [
      | inl same ↦
          (Mem.head same, subst (λ y. is_some (entry_at locals y.path) ≡ false) (sym same) e)
      | inr later ↦ let (p, q) = ih later in (Mem.tail p, q)
    ]

insert_mem :
    (a : FileMeta) (entries : List FileMeta) (r : FileMeta)
    → Memᴰ r (insert_entry a entries)
    → Memᴰ r (a ∷ entries)
unfolding insert_entry
insert_mem a [] r h = h
insert_mem a (b ∷ entries) r h = go (λ k. insert_mem a entries r k) (goes_first a b) h
  where
    go :
        (Memᴰ r (insert_entry a entries) → Memᴰ r (a ∷ entries))
        → (c : Bool) → Memᴰ r (if c then a ∷ b ∷ entries else b ∷ insert_entry a entries)
        → Memᴰ r (a ∷ b ∷ entries)
    go ih true k = k
    go ih false k = elim (Mem.cases_cons k) [
      | inl same ↦ Mem.tail (Mem.head same)
      | inr later ↦ elim (Mem.cases_cons (ih later)) [
        | inl same ↦ Mem.head same
        | inr deep ↦ Mem.tail (Mem.tail deep)
      ]
    ]

sort_mem : (entries : List FileMeta) (r : FileMeta) → Memᴰ r (sort_entries entries) → Memᴰ r entries
unfolding sort_entries
sort_mem [] r h = h
sort_mem (a ∷ entries) r h = elim (Mem.cases_cons (insert_mem a (sort_entries entries) r h)) [
  | inl e ↦ Mem.head e
  | inr k ↦ Mem.tail (sort_mem entries r k)
]

-- `sync` asks to delete only when it was told to, only what the agent has listed, and never a
-- path that a local entry has.
pub deletes_mem :
    (delete : Bool) (locals entries : List FileMeta) (r : FileMeta)
    → Memᴰ r (deletes delete locals entries)
    → (delete ≡ true) × Memᴰ r entries × ((m : FileMeta) → Memᴰ m locals → ¬ (m.path ≡ r.path))
unfolding deletes
deletes_mem false locals entries r h = absurd (Mem.not-nil h)
deletes_mem true locals entries r h =
    let (listed, gone) =
      only_remote_mem locals entries r (sort_mem (only_remote locals entries) r h) in
    (
      refl,
      listed,
      λ m k e.
          true≢false
            (sym (entry_at-some locals m k) ∙ ap (λ p. is_some (entry_at locals p)) e ∙ gone),
    )
