-- ===== src/Examples.antt =====
-- The theorems at concrete inputs, and runs of the definitions.
mod Fixtures
mod Plans
mod Records
mod Loops
mod Certificates
mod Writing
mod Handlers
mod Outside
