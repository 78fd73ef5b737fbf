-- ===== src/Session.antt =====
-- The access token of the WebUI and the dialog that asks for it (app/webui/app.js).
pub mod State
pub mod Guard
mod Examples
