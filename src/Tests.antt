-- ===== src/Tests.antt =====
-- The theorems at concrete inputs, and runs of the model on inputs of the repository's own tests.
mod RsyncRuns
mod ShellRuns
mod ConfigRuns
mod ProjectRuns
mod AgentRuns
mod PlanRuns
mod LockRuns
mod LaunchRuns
mod SshRuns
mod Fixtures
mod DiskRuns
mod ServerRuns
mod FetchRuns
mod SshcfgRuns
mod SessionRuns
mod ProgressRuns
