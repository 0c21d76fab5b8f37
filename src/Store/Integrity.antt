-- ===== src/Store/Integrity.antt =====
-- The integrity of the registry: keys are unique and every reference has its row, after any sequence
-- of the store's operations, whichever of their statements fail.
pub mod Keys
pub mod Predicate
pub mod Statements
pub mod States
pub mod Operations
