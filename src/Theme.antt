-- ===== src/Theme.antt =====
-- The theme of the WebUI (app/webui/app.js, app/webui/theme-boot.js).
pub mod Page
pub mod Boot
pub mod Invariant
mod Examples
