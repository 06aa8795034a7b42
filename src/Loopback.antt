-- ===== src/Loopback.antt =====
-- src/activations/claudecode_loopback: a tool waits until its parent session approves it.
pub mod Storage
pub mod Methods
pub mod Approved
pub mod Seen
pub mod Linked
pub mod Last
mod Examples
