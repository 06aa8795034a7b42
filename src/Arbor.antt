-- ===== src/Arbor.antt =====
-- src/activations/arbor: conversation trees, their nodes, and the references that keep a tree alive.
pub mod Types
pub mod Trees
pub mod Nodes
pub mod Query
pub mod Service
pub mod Counts
pub mod Untouched
pub mod Consistent
pub mod Path
pub mod Forest
pub mod Created
pub mod Positive
pub mod Live
pub mod Sound
pub mod Archived
pub mod Deadline
pub mod Roundtrip
pub mod Listing
pub mod Examples
