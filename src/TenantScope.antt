-- ===== src/TenantScope.antt =====
-- src/tenant_scope.rs: the identities under which documents are stored for a tenant, and the stored
-- documents.
pub mod Identities
pub mod Documents
pub mod Restore
pub mod Rows
pub mod Digits
pub mod Injective
mod Examples
