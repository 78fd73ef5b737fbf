-- ===== src/Tabs.antt =====
-- The tabs of the WebUI (app/webui/app.js).
pub mod Bar
pub mod Single
pub mod Keys
mod Examples
