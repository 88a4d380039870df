-- ===== src/State.antt =====
-- internal/state: obligations, repair episodes, trends and regimes, and the projector over them.
pub mod Regime
pub mod Obligations
pub mod Times
pub mod Trend
pub mod Repair
pub mod Payloads
pub mod Log
pub mod Pointers
pub mod Projector
pub mod Episodes
pub mod Identity
