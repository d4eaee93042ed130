-- ===== src/Ssh/Auth.antt =====
-- src/ssh.rs: `authenticate` and `check_rsa_policy`. Whether the server takes a key is an argument.
use cargo_remote.Prelude.{
  List, [], ◌∷◌, ◌++◌, Text, Bytes, codes, Bool, true, false, not, ◌&&◌, Option, none, some,
  if◌then◌else◌, text_eq, is_some, is_empty, unwrap_or,
}

-- A key: its algorithm, and the rest of it.
pub record Key : Type 0 where
  pub algorithm : Text
  pub public_part : Bytes

-- A key of the agent or of an identity file; a file that cannot be loaded, and a
-- certificate of the agent, are passed over.
pub data Identity : Type 0 where
  usable : Key → Identity
  passed_over : Identity

pub data AuthError : Type 0 where
  sha1_refused auth_failed : AuthError

pub data AuthResult : Type 0 where
  authenticated : AuthResult
  refused : AuthError → AuthResult

-- What `authenticate` has signed with, and its result. `none` goes on with the next list.
pub record Trying : Type 0 where
  pub signed_with : List Key
  pub result : Option AuthResult

abbrev pub rsa : Text
rsa = codes "ssh-rsa"

-- `check_rsa_policy`: the algorithm may be used.
unfoldable pub rsa_allowed : Text → Option Text → Bool
rsa_allowed alg rsa_hash = not (text_eq alg rsa && not (is_some rsa_hash))

-- One identity: whether the policy allows its algorithm, and whether the server takes this key.
unfoldable pub try_one : Key → Bool → Bool → Trying → Trying
try_one key false taken rest = record { signed_with = []; result = some (refused sha1_refused) }
try_one key true true rest = record { signed_with = key ∷ []; result = some authenticated }
try_one key true false rest = record { signed_with = key ∷ rest.signed_with; result = rest.result }

-- Where the agent has not settled it, the files are next; where neither does, it fails.
unfoldable pub settle : Option AuthResult → List Key → Trying → List Key × AuthResult
settle (some r) signed second = (signed, r)
settle none signed second =
    (signed ++ second.signed_with, unwrap_or second.result (refused auth_failed))

module _ (takes : Key → Option Text → Bool) (rsa_hash : Option Text) where
  -- One of the two loops, over the identities of the agent or over the files.
  unfoldable pub try_identities : List Identity → Trying
  unfolding rsa_allowed try_one
  try_identities [] = record { signed_with = []; result = none }
  try_identities (passed_over ∷ ids) = try_identities ids
  try_identities (usable key ∷ ids) =
      let rest = try_identities ids in
      try_one key (rsa_allowed key.algorithm rsa_hash) (takes key rsa_hash) rest

  unfoldable pub authenticate : List Identity → List Identity → List Key × AuthResult
  unfolding try_identities settle
  authenticate agent files =
      let first = try_identities agent in
      let second = try_identities files in settle first.result first.signed_with second

-- The identity files that are tried: those of the configuration, or else the usual ones that exist.
unfoldable pub identity_files : List Text → List Text → List Text
identity_files from_cfg defaults = if is_empty from_cfg then defaults else from_cfg
