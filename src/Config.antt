-- ===== src/Config.antt =====
-- internal/config: the types of tenant.yaml and site.yaml and their validation.
pub mod Slugs
pub mod Tenants
pub mod Sites
pub mod Settings
