-- ===== src/Families.antt =====
-- The grid of model families (app/webui/app.js).
pub mod Grid
pub mod Order
pub mod Collapse
pub mod Sessions
pub mod Rows
pub mod Opened
pub mod Shown
pub mod Placing
pub mod Anchors
pub mod Picture
pub mod RowEnds
pub mod Arrange
pub mod Members
pub mod Layout
pub mod Resize
pub mod Settled
mod Examples
