-- ===== src/Ssh/Accepts.antt =====
-- src/ssh.rs: the host keys that a connection accepts.
use cargo_remote.Prelude.{◌≡◌, refl, Text, Bool, true, false, ◌≢◌, ◌↔◌, arith}
use cargo_remote.Ssh.HostKey.{
  Known, matches, absent, failed, changed, plain_key, certificate, Rejection, Decision, accept,
  reject, says_yes, system_known_hosts, Handler, unknown_key, check_system, check_server_key,
}

-- A known_hosts file does not have the key, and says nothing against it.
IsOpenTo : Known → Type 0
IsOpenTo matches = ⊥
IsOpenTo _ = Unit {0}

-- The user is asked and agrees.
pub record Agrees (h : Handler) (line : Text) : Type 0 where
  pub lax : h.strict ≡ false
  pub at_terminal : h.interactive ≡ true
  pub yes_typed : says_yes line ≡ true

agreed :
    (h : Handler) (line : Text) (learns : Bool)
    → (unknown_key h line learns).accepted ≡ true
    → Agrees h line
unfolding unknown_key
agreed h line learns e = record {
  lax = ground arith;
  at_terminal = ground arith;
  yes_typed = ground arith;
}

agrees :
    (h : Handler) (line : Text) (learns : Bool)
    → Agrees h line
    → (unknown_key h line learns).accepted ≡ true
unfolding unknown_key
agrees h line learns a = rw (a.lax, a.at_terminal) (a.yes_typed)

module _ {K : Type 0} (known : K → Text → Known) where
  -- Why a key is accepted.
  pub data Trusted (h : Handler) (key : K) (line : Text) : Type 0 where
    by_user_file : known key h.known_hosts ≡ matches → Trusted h key line
    by_system_file :
        known key h.known_hosts ≡ absent
        → known key system_known_hosts ≡ matches
        → Trusted h key line
    by_user :
        known key h.known_hosts ≡ absent
        → known key system_known_hosts ≢ matches
        → Agrees h line
        → Trusted h key line
    by_user_alone : known key h.known_hosts ≡ failed → Agrees h line → Trusted h key line

  system_trusts :
      (h : Handler) (key : K) (line : Text) (learns : Bool)
      → known key h.known_hosts ≡ absent
      → (check_system known h key line learns).accepted ≡ true
      → Trusted h key line
  unfolding check_system
  system_trusts h key line learns a e = go (known key system_known_hosts) refl e
    where
      go :
          (s : Known)
          → known key system_known_hosts ≡ s
          → (elim s as (λ s. Decision) [
            | matches ↦ accept
            | absent ↦ unknown_key h line learns
            | failed ↦ unknown_key h line learns
            | changed n ↦ unknown_key h line learns
          ]).accepted
            ≡ true
          → Trusted h key line
      go matches s k = by_system_file a s
      go absent s k = by_user a (λ u. cc) (agreed h line learns k)
      go failed s k = by_user a (λ u. cc) (agreed h line learns k)
      go (changed n) s k = by_user a (λ u. cc) (agreed h line learns k)

  key-Trusted :
      (h : Handler) (key : K) (line : Text) (learns : Bool)
      → (check_server_key known h (plain_key key) line learns).accepted ≡ true
      → Trusted h key line
  unfolding check_server_key
  key-Trusted h key line learns e = go (known key h.known_hosts) refl e
    where
      go :
          (s : Known)
          → known key h.known_hosts ≡ s
          → (elim s as (λ s. Decision) [
            | matches ↦ accept
            | absent ↦ check_system known h key line learns
            | changed n ↦ reject (Rejection.key_changed n)
            | failed ↦ unknown_key h line learns
          ]).accepted
            ≡ true
          → Trusted h key line
      go matches s k = by_user_file s
      go absent s k = system_trusts h key line learns s k
      go failed s k = by_user_alone s (agreed h line learns k)
      go (changed n) s k = cc

  system_accepts :
      (h : Handler) (key : K) (line : Text) (learns : Bool)
      → known key system_known_hosts ≢ matches
      → Agrees h line
      → (check_system known h key line learns).accepted ≡ true
  unfolding check_system
  system_accepts h key line learns n a = go (known key system_known_hosts) n
    where
      go :
          (s : Known)
          → s ≢ matches
          → (elim s as (λ s. Decision) [
            | matches ↦ accept
            | absent ↦ unknown_key h line learns
            | failed ↦ unknown_key h line learns
            | changed n ↦ unknown_key h line learns
          ]).accepted
            ≡ true
      go matches n = absurd (n refl)
      go absent n = agrees h line learns a
      go failed n = agrees h line learns a
      go (changed k) n = agrees h line learns a

  Trusted-accepted :
      (h : Handler) (key : K) (line : Text) (learns : Bool)
      → Trusted h key line
      → (check_server_key known h (plain_key key) line learns).accepted ≡ true
  unfolding check_server_key check_system
  Trusted-accepted h key line learns (by_user_file e) = rw (e, check_server_key)
  Trusted-accepted h key line learns (by_system_file e s) =
      rw (e, check_server_key) (rw (s, check_system))
  Trusted-accepted h key line learns (by_user e s a) =
      rw (e, check_server_key) (system_accepts h key line learns s a)
  Trusted-accepted h key line learns (by_user_alone e a) =
      rw (e, check_server_key) (agrees h line learns a)

  -- A host key is accepted exactly when the user's known_hosts has it; or that file lacks it and
  -- the system's file has it; or neither has it, whatever else the system's file says, the connection is not strict and at a terminal,
  -- and the user types yes; or, likewise with yes, when the user's file could not be searched. So
  -- a key that differs from the one in the user's file is never accepted, nor a certificate.
  pub check_server_key-Trusted :
      (h : Handler) (key : K) (line : Text) (learns : Bool)
      → (((check_server_key known h (plain_key key) line learns).accepted ≡ true)
          ↔ Trusted h key line)
        × ((check_server_key known h certificate line learns).accepted ≡ false)
  unfolding check_server_key
  check_server_key-Trusted h key line learns =
      ((key-Trusted h key line learns, Trusted-accepted h key line learns), refl)
