-- ===== src/Agent.antt =====
-- src/agent.rs: the protocol of the sync agent, in the modules below.
pub mod Frames
pub mod Framing
pub mod Paths
pub mod Confined
pub mod Names
pub mod SigSize
pub mod Plan
pub mod PlanCovers
pub mod Deletes
pub mod Disk
pub mod Storing
pub mod Acts
pub mod Atomic
pub mod Messages
pub mod Server
pub mod Sending
pub mod Arrives
pub mod Delivery
pub mod Kept
pub mod ServedUnder
pub mod ServedCalls
pub mod Fetching
pub mod Fetched
