-- ===== src/Redaction.antt =====
-- The redaction of secrets in src/util.rs.
pub mod Texts
pub mod Lists
pub mod Members
pub mod Secrets
pub mod Exact
pub mod Overlaps
pub mod Masks
pub mod Keeps
pub mod Kept
pub mod Shaped
pub mod Projections
pub mod Egress
pub mod Clean
pub mod Streaming
pub mod Examples
