-- ===== src/Agent/Fetched.antt =====
-- src/agent.rs: one file from the agent to the client: FETCH_SIG, FETCHED, and the write.
use cargo_remote.Prelude.{sym, subst, List, Text, Bool, true, Option, some, Result, ok, err}
use cargo_remote.Prelude as P
use cargo_remote.Agent.Disk.{Disk, AgentError}

-- The result of a write with the name of the file.
unfoldable pub named :
    {S : Type 0} → Text → Result AgentError (Unit {0}) × S → Result AgentError (Option Text) × S
named name (ok u, s) = (ok (some name), s)
named name (err e, s) = (err e, s)
