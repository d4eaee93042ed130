-- ===== src/Agent/Plan.antt =====
-- src/agent.rs: the plan of `Agent::sync`, from the local entries and those that the agent lists.
-- Both maps are `HashMap`s that are collected from a list: of two entries with one path the later
-- one counts. Paths compare as texts, by code points, which is the order of their UTF-8 bytes.
use cargo_remote.Prelude.{
  ℕ, suc, ◌^◌, List, [], ◌∷◌, ◌++◌, Text, Bool, true, false, not, ◌&&◌, ◌||◌, Option, none, some,
  if◌then◌else◌, ◌==◌, ltb, leb, text_eq, or_else, is_some,
}

abbrev pub kind_file : ℕ
kind_file = 0

abbrev pub kind_dir : ℕ
kind_dir = 1

abbrev pub kind_link : ℕ
kind_link = 2

-- `VERIFY_MAX`
abbrev pub verify_max : ℕ
verify_max = 2 ^ 20

pub record FileMeta : Type 0 where
  pub path : Text
  pub len : ℕ
  pub mtime : ℕ
  pub mode : ℕ
  pub kind : ℕ
  pub link : Option Text

-- `==` of two links
unfoldable pub same_link : Option Text → Option Text → Bool
same_link none none = true
same_link none (some t) = false
same_link (some s) none = false
same_link (some s) (some t) = text_eq s t

unfoldable pub same_entry : FileMeta → FileMeta → Bool
unfolding same_link
same_entry l r =
    if not (l.kind == r.kind)
    then false
    else if l.kind == kind_file
    then (l.len == r.len) && (l.mtime == r.mtime)
    else if l.kind == kind_link
    then same_link l.link r.link
    else true

-- `map.get(path)`
unfoldable pub entry_at : List FileMeta → Text → Option FileMeta
entry_at [] path = none
entry_at (m ∷ entries) path =
    or_else (entry_at entries path) (if text_eq m.path path then some m else none)

pub record Plan : Type 0 where
  pub mkdirs : List Text
  pub sends : List FileMeta
  pub sig_wanted : List Text
  pub verify : List FileMeta

abbrev pub empty_plan : Plan
empty_plan = record { mkdirs = []; sends = []; sig_wanted = []; verify = [] }

-- A local entry whose path the agent does not list.
unfoldable pub plan_new : FileMeta → Plan → Plan
plan_new m plan =
    if m.kind == kind_dir
    then record plan { mkdirs = plan.mkdirs ++ m.path ∷ [] }
    else record plan { sends = plan.sends ++ m ∷ [] }

-- One whose path the agent lists as `r`.
unfoldable pub plan_known : FileMeta → FileMeta → Plan → Plan
unfolding same_entry
plan_known m r plan =
    if not (same_entry m r)
    then record plan {
      sends = plan.sends ++ m ∷ [];
      sig_wanted =
          if (m.kind == kind_file) && ((r.kind == kind_file) && ltb 0 r.len)
          then plan.sig_wanted ++ m.path ∷ []
          else plan.sig_wanted;
    }
    else if (m.kind == kind_file) && (ltb 0 m.len && leb m.len verify_max)
    then record plan { verify = plan.verify ++ m ∷ [] }
    else plan

unfoldable pub plan_entry : List FileMeta → FileMeta → Plan → Plan
unfolding entry_at plan_new plan_known
plan_entry entries m plan = elim (entry_at entries m.path) [
  | none ↦ plan_new m plan
  | some r ↦ plan_known m r plan
]

-- `for m in &local`
unfoldable pub plan_from : List FileMeta → List FileMeta → Plan → Plan
plan_from entries [] plan = plan
plan_from entries (m ∷ rest) plan = plan_from entries rest (plan_entry entries m plan)

-- `path.matches('/').count()`
unfoldable pub slashes : Text → ℕ
slashes [] = 0
slashes (c ∷ s) = if c == b'/' then suc (slashes s) else slashes s

unfoldable pub text_leb : Text → Text → Bool
text_leb [] t = true
text_leb (c ∷ s) [] = false
text_leb (c ∷ s) (d ∷ t) = ltb c d || ((c == d) && text_leb s t)

-- The comparison of the sort says that `a` may stand before `b`.
unfoldable pub goes_first : FileMeta → FileMeta → Bool
unfolding slashes text_leb
goes_first a b =
    ltb (slashes b.path) (slashes a.path)
    || ((slashes b.path == slashes a.path) && text_leb b.path a.path)

-- `sort_by`, which is stable, as an insertion sort.
unfoldable pub insert_entry : FileMeta → List FileMeta → List FileMeta
unfolding goes_first
insert_entry a [] = a ∷ []
insert_entry a (b ∷ entries) =
    if goes_first a b then a ∷ b ∷ entries else b ∷ insert_entry a entries

unfoldable pub sort_entries : List FileMeta → List FileMeta
sort_entries [] = []
sort_entries (a ∷ entries) = insert_entry a (sort_entries entries)

-- The entries that the agent lists and that are not among the local ones.
unfoldable pub only_remote : List FileMeta → List FileMeta → List FileMeta
unfolding entry_at
only_remote locals [] = []
only_remote locals (r ∷ entries) =
    let rest = only_remote locals entries in
    if is_some (entry_at locals r.path) then rest else r ∷ rest

-- The paths of the DELETE frame; there is none when the list is empty.
unfoldable pub deletes : Bool → List FileMeta → List FileMeta → List FileMeta
unfolding only_remote sort_entries
deletes delete locals entries = if delete then sort_entries (only_remote locals entries) else []

-- `Plan`, from its start
unfoldable pub plan_sync : List FileMeta → List FileMeta → Plan
unfolding plan_from plan_entry
plan_sync locals entries = plan_from entries locals empty_plan
