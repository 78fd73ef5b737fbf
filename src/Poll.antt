-- ===== src/Poll.antt =====
-- The progress of downloads on the models tab (app/webui/app.js).
pub mod Size
pub mod Progress
pub mod Timer
pub mod Single
pub mod Found
pub mod Cards
pub mod Answers
mod Examples
