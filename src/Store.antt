-- ===== src/Store.antt =====
-- internal/store/sqlite/store.go: the registry. `Tables` has the statements on one table and their
-- laws, `Query` the database handle, and the other modules the methods of `Store`, table by table.
pub mod Tables
pub mod Rows
pub mod Query
pub mod Keeps
pub mod Tenants
pub mod Sites
pub mod States
pub mod Audit
pub mod Tokens
pub mod Secrets
pub mod Certs
pub mod Integrity
pub mod Triples
pub mod Purges
pub mod Deletions
pub mod RoundTrips
pub mod DesiredMap
pub mod FileHashes
pub mod TokenLife
