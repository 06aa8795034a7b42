-- ===== src/Lattice.antt =====
-- The lattice activation (src/activations/lattice): a graph engine over coloured tokens.
pub mod Types
pub mod Store
pub mod Engine
mod Rows
mod Sound
mod Safety
pub mod Halting
pub mod Log
pub mod Edit
pub mod Lifecycle
pub mod Stream
pub mod Service
mod Primitives
mod Requests
pub mod WellFormed
pub mod Growth
pub mod Join
pub mod Completion
pub mod Failure
pub mod Started
pub mod FanOut
pub mod Reading
pub mod Samples
mod Examples
