-- ===== src/Copy.antt =====
-- The buttons that copy or download something (app/webui/app.js).
pub mod Pairing
pub mod Hint
pub mod Messages
mod Examples
