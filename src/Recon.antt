-- ===== src/Recon.antt =====
-- internal/recon/reconciler.go: the loop that drives compose projects toward their desired state.
pub mod Backoff
pub mod Runtime
pub mod Projects
pub mod Ticks
pub mod Trust
pub mod Frames
pub mod Retries
pub mod Convergence
