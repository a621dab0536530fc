-- ===== src/Meili.antt =====
-- The parts of src/meili.rs that are about the managed indexes.
pub mod Indexes
pub mod Settings
pub mod Examples
