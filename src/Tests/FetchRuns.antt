-- ===== src/Tests/FetchRuns.antt =====
-- src/agent.rs: a fetched file on a file system in memory.
use cargo_remote.Tests.Fixtures.{padded, padded}
