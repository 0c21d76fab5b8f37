-- ===== src/Migrate.antt =====
-- internal/migrate/yaml/migrator.go: the migration of tenant.yaml and site.yaml between schema versions.
pub mod Migrator
pub mod Versions
