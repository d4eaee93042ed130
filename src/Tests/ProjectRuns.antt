-- ===== src/Tests/ProjectRuns.antt =====
-- src/project.rs at the arguments and names of the repository's tests.
use cargo_remote.Prelude.{
  ◌≤◌, ◌≡◌, ◌≢◌, refl, [], ◌∷◌, codes, Text, Bytes, true, all, max, length, arith,
}
use cargo_remote.Project.{profile_from_args, remote_safe_name}
use cargo_remote.Project.Profile.{is_inert, profile_from_args-inert}
use cargo_remote.Project.SafeName.{IsSafeName, remote_safe_name-IsSafeName}

profile_from_args-inert_example :
    (codes "release-lto" ≢ []) × (all is_inert (codes "release-lto") ≡ true)
profile_from_args-inert_example =
    profile_from_args-inert (codes "-j4" ∷ codes "--profile" ∷ codes "release-lto" ∷ [])
      (codes "release-lto") (unfold profile_from_args in refl)

abbrev four_bytes : Text → Bytes
four_bytes s = 0x0a ∷ 0xff ∷ 1 ∷ 2 ∷ []

remote_safe_name-IsSafeName_example :
    IsSafeName (remote_safe_name four_bytes (codes "a/../$(id)"))
    × (length (remote_safe_name four_bytes (codes "a/../$(id)")) ≤ max 49 10)
    × (remote_safe_name four_bytes (remote_safe_name four_bytes (codes "a/../$(id)"))
        ≡ remote_safe_name four_bytes (codes "a/../$(id)"))
remote_safe_name-IsSafeName_example =
    remote_safe_name-IsSafeName four_bytes
      (λ s. (omega arith, (omega arith, (omega arith, (omega arith, tt))))) (λ s. omega arith)
      (codes "a/../$(id)")
