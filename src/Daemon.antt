-- ===== src/Daemon.antt =====
-- internal/daemon/server.go: the HTTP daemon.
pub mod Admission
pub mod Lifecycle
pub mod Removal
pub mod Stops
pub mod Ownership
pub mod Purge
pub mod Provision
pub mod Credentials
pub mod Rendering
pub mod Hashes
pub mod SiteRendering
pub mod TenantHandlers
pub mod SiteHandlers
pub mod CertHandlers
pub mod Operating
pub mod Applying
pub mod Polling
pub mod Updates
pub mod Wanted
pub mod Access
pub mod Reports
