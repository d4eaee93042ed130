-- ===== src/Cli/Merge.antt =====
-- src/cli.rs: the merge of options given before and after the subcommand.
use cargo_remote.Prelude.{
  ◌≡◌, refl, append-nil, Bool, true, false, ◌||◌, Option, none, some, or_else, arith,
}
use cargo_remote.Cli.{RemoteOpts, merge, default_opts}

-- `--no-copy-back` on either side switches copy-back off, whatever `--copy-back` says.
merge_no_copy_back :
    (self other : RemoteOpts)
    → (self.no_copy_back || other.no_copy_back) ≡ true
    → (merge self other).copy_back ≡ some false
unfolding merge
merge_no_copy_back self other h = ground arith

or_else-none {ℓ} : {A : Type ℓ} (a : Option A) → or_else a none ≡ a
or_else-none none = refl
or_else-none (some a) = refl

or-false : (b : Bool) → (b || false) ≡ b
or-false true = refl
or-false false = refl

-- Options mean the same before the subcommand and after it, when the other place has none.
merge_either_side : (o : RemoteOpts) → merge o default_opts ≡ merge default_opts o
unfolding merge
merge_either_side o = simp (or_else-none, or-false, append-nil)
