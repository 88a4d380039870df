-- ===== src/Metrics.antt =====
-- internal/metrics: the arithmetic over counts that every turn is measured by.
mod Numbers
mod Families
mod Bands
mod Assessments
pub mod Snapshot
unfoldable pub use Numbers.*
unfoldable pub use Families.*
unfoldable pub use Bands.*
unfoldable pub use Assessments.*
pub mod Middle
pub mod Bounds
