-- ===== src/Ssh/HostKey.antt =====
-- src/ssh.rs: `check_server_key` and `unknown_key`, and how strict a connection is.
-- The known_hosts files are read by russh: `known` stands for `check_known_hosts_path` at the host
-- and port of the connection. What the user types at the prompt is an argument.
use cargo_remote.Prelude.{
  ℕ, Text, codes, Bool, true, false, not, ◌||◌, Option, none, some, if◌then◌else◌, unwrap_or,
  text_eq, to_ascii_lowercase,
}
use cargo_remote.RunLock.{trim}

-- What a known_hosts file says of a key; `failed` is any error but `KeyChanged`.
pub data Known : Type 0 where
  matches absent failed : Known
  changed : ℕ → Known

pub data ServerKey (K : Type 0) : Type 0 where
  plain_key : K → ServerKey K
  certificate : ServerKey K

pub data Rejection : Type 0 where
  certificate_unsupported unknown_host_key : Rejection
  key_changed : ℕ → Rejection

-- The answer, the reason that is kept for the error message, and what happened on the way.
pub record Decision : Type 0 where
  pub accepted : Bool
  pub rejection : Option Rejection
  pub asked : Bool
  pub recorded : Bool

abbrev pub accept : Decision
accept = record { accepted = true; rejection = none; asked = false; recorded = false }

abbrev pub reject : Rejection → Decision
reject r = record { accepted = false; rejection = some r; asked = false; recorded = false }

-- `matches!(line.trim().to_ascii_lowercase(), "y" | "yes")`
unfoldable pub says_yes : Text → Bool
unfolding trim
says_yes line =
    let l = to_ascii_lowercase (trim line) in text_eq l (codes "y") || text_eq l (codes "yes")

abbrev pub system_known_hosts : Text
system_known_hosts = codes "/etc/ssh/ssh_known_hosts"

pub record Handler : Type 0 where
  pub known_hosts : Text
  pub strict : Bool
  pub interactive : Bool

-- `line` is what the user types, and `learns` whether the key could be recorded then.
unfoldable pub unknown_key : Handler → Text → Bool → Decision
unfolding says_yes
unknown_key h line learns =
    if h.strict || not h.interactive then reject unknown_host_key else record {
      accepted = says_yes line;
      rejection = none;
      asked = true;
      recorded = if says_yes line then learns else false;
    }

module _ {K : Type 0} (known : K → Text → Known) where
  -- The key is not in the user's file: the system's file is asked.
  unfoldable pub check_system : Handler → K → Text → Bool → Decision
  check_system h key line learns = elim (known key system_known_hosts) [
    | matches ↦ accept
    | absent ↦ unknown_key h line learns
    | failed ↦ unknown_key h line learns
    | changed n ↦ unknown_key h line learns
  ]

  unfoldable pub check_server_key : Handler → ServerKey K → Text → Bool → Decision
  check_server_key h certificate line learns = reject certificate_unsupported
  check_server_key h (plain_key key) line learns = elim (known key h.known_hosts) [
    | matches ↦ accept
    | absent ↦ check_system h key line learns
    | changed n ↦ reject (key_changed n)
    | failed ↦ unknown_key h line learns
  ]

-- The strictness that `connect` chooses, from the raw setting and the parsed configuration.
unfoldable pub strict_of : Option Text → Option Bool → Bool
strict_of none parsed = unwrap_or parsed false
strict_of (some v) parsed = text_eq v (codes "yes")

-- `ProxyCommand none`
unfoldable pub proxy_none : Option Text → Bool
proxy_none none = false
proxy_none (some p) = text_eq (to_ascii_lowercase (trim p)) (codes "none")
