-- ===== src/Models.antt =====
-- The record types of src/models*.rs that the mutation journal stores.
pub mod Common
pub mod History
pub mod Context
pub mod Knowledge
pub mod Documents
pub mod Structured
pub mod Harness
pub mod Evaluation
pub mod Operations
