-- ===== src/Ssh.antt =====
-- src/ssh.rs: the decisions and the channel loops of the ssh client, in the modules below.
pub mod HostKey
pub mod Accepts
pub mod Exec
pub mod Feeding
pub mod Captures
pub mod Downloads
pub mod Auth
pub mod Signing
