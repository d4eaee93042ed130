-- ===== src/Rsync.antt =====
-- src/rsync.rs: the rsync delta algorithm. `Checksum` holds the block checksums and signatures,
-- `Wire` the signature's wire form, `Delta` and `Patch` the two ends of a transfer.
pub mod Checksum
pub mod Rolling
pub mod Wire
pub mod Delta
pub mod Patch
pub mod RoundTrip
pub mod PatchBounds
pub mod Divergence
pub mod Sizes
