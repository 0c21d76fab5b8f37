-- ===== src/Runner.antt =====
-- internal/runner: the commands of docker compose and the reading of containers.
pub mod Compose
pub mod Exclusion
pub mod Docker
