-- ===== src/Mutation.antt =====
-- src/mutation.rs: the journal of persistence mutations. An operation's plan is validated, its
-- steps are submitted, completed and failed in an order, and a settled record is compacted.
pub mod Checks
pub mod Resources
pub mod Plans
pub mod Records
pub mod Transitions
pub mod Compaction
pub mod Reports
mod Examples
