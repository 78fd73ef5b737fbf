-- ===== src/Script.antt =====
-- The parts of app/webui/app.js that share the session and the list of models, together.
pub mod Events
pub mod Guarded
pub mod Whole
mod Examples
