-- ===== src/Tests.antt =====
-- Concrete inputs at which the theorems are applied.
mod Data
mod Rules
mod Sessions
mod Panels
mod Parts
mod Numbers
mod Readers
mod Classifiers
mod Scores
