-- ===== src/OperationsMigration.antt =====
-- The migration operations_v1 (src/operations_v1.rs), which provides the index of the operation
-- journal: plans, what is observed of the index, and the plan, apply and verify commands.
pub mod Plans
pub mod Reports
pub mod Commands
pub mod Reads
pub mod Decisions
pub mod Refines
pub mod Refusals
pub mod Verified
pub mod Signed
pub mod Converges
pub mod Examples
