-- ===== src/Agent/Acts.antt =====
-- src/agent.rs: what code that changes the disk and may fail keeps, from what its parts keep.
use cargo_remote.Prelude.{◌≡◌, refl, Bool, true, false, ok, ensure}
pub use cargo_remote.Prelude.Actions.{Keeps, go_on-Keeps, bind-Keeps, go_on_ok}
use cargo_remote.Agent.Disk.{AgentError, call}

pub call_ok :
    {S : Type 0} (op : S → Bool × S) (s : S) (u : Unit {0}) → (call op s).0 ≡ ok u → (op s).0 ≡ true
call_ok op s u h = go (op s).0 h
  where
    go : (b : Bool) → ensure b AgentError.os_error ≡ ok u → b ≡ true
    go true h = refl
    go false h = cc
