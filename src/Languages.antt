-- ===== src/Languages.antt =====
-- The language picker of the Pair & test tab (app/webui/app.js).
pub mod Picker
pub mod Found
pub mod Choice
mod Examples
