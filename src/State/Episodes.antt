-- ===== src/State/Episodes.antt =====
-- internal/state/projector.go: the repair episodes and the response cycle of the projector.
--
-- The `*Repair` pointers of `repairs`, `active`, `closing` and the cycle are positions in
-- `repairs`, which is the store: an episode is only ever appended and then changed in place. The
-- fields of `Projector` that these operations alone write are grouped as `Episodes`.
pub mod Store
pub mod Settle
pub mod Corrections
pub mod Turn
pub mod Ending
pub mod Invariant
pub mod Preserve
pub mod Closing
pub mod Reopening
unfoldable pub use Store.*
unfoldable pub use Settle.*
unfoldable pub use Corrections.*
unfoldable pub use Turn.*
unfoldable pub use Ending.*
