-- ===== src/Panel.antt =====
-- pkg/panel: a terminal panel of rows at shared column widths.
--
-- A width is a natural number: one below 0 acts as 0. A count of columns is one of characters.
pub mod Text
pub mod Pane
pub mod Table
pub mod Track
