-- ===== src/Rail.antt =====
-- The collapse of the filters' rail, and the search over a list of filters (app/webui/app.js).
pub mod Collapse
pub mod Kept
pub mod Search
mod Examples
