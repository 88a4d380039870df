-- ===== src/State/Projector.antt =====
-- internal/state/projector.go: the projector that folds records into events and state.
pub mod Defs
pub mod Classified
pub mod Measure
pub mod Demands
pub mod Turn
pub mod Push
unfoldable pub use Defs.*
unfoldable pub use Classified.*
unfoldable pub use Measure.*
unfoldable pub use Demands.*
unfoldable pub use Turn.*
unfoldable pub use Push.*
pub mod Invariant
pub mod Soundness
pub mod Panics
pub mod Stamped
pub mod Bounded
