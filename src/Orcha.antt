-- ===== src/Orcha.antt =====
-- src/activations/orcha: sessions and their agents, kept in tables and in memory, and the loop that runs
-- a task until it validates. The ticket compiler of the same directory is in Tickets.
pub mod Types
pub mod States
pub mod Storage
pub mod Agents
pub mod Restart
pub mod Task
pub mod Verdict
pub mod Outcome
pub mod Examples
pub mod Typed
pub mod Counted
