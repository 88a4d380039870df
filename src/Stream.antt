-- ===== src/Stream.antt =====
-- internal/stream: the canonical record, its actions, and the text helpers.
mod Records
mod Text
pub mod Tail
unfoldable pub use Records.*
unfoldable pub use Text.*
