-- ===== src/Store/Tables.antt =====
-- A SQL table as the list of its rows: the statements of store.go on one table, and their laws.
pub mod Statements
pub mod Keys
pub mod Lookups
pub mod References
pub mod Sorting
