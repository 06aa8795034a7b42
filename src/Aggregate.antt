-- ===== src/Aggregate.antt =====
-- src/mneme/swarm/aggregate: combining the responses of several trials into one.
pub mod Rules
pub mod Severity
pub mod Texts
pub mod Ladder
pub mod Highest
pub mod Majority
pub mod Tally
pub mod Winner
pub mod Elected
mod Examples
