-- ===== src/Capacity.antt =====
-- internal/capacity/profile.go: the static table of predicted memory and the admission prediction.
-- Values are in MB. The texts of the errors are left out; an error keeps what it names.
pub mod Profiles
pub mod Predictions
pub mod Costs
unfoldable pub use Profiles.*
unfoldable pub use Predictions.*
