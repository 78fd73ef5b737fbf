-- ===== src/TestTab.antt =====
-- The language and the cleanup switch of the Pair & test tab together (app/webui/app.js).
pub mod Events
pub mod Warned
pub mod Stale
pub mod Supported
mod Examples
