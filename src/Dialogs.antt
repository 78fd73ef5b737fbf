-- ===== src/Dialogs.antt =====
-- The dialogs of the models and pairing tabs (app/webui/app.js).
pub mod Focus
pub mod Tracked
pub mod Return
mod Examples
