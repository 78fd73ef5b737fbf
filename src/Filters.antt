-- ===== src/Filters.antt =====
-- The filters of the models tab (app/webui/app.js).
pub mod Form
pub mod Count
pub mod Chrome
pub mod Views
mod Examples
