-- ===== src/Backup.antt =====
-- internal/backup/pgdump.go: dumps of a tenant's database.
pub mod Dumps
pub mod Pruning
