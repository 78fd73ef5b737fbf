-- ===== src/Recorder.antt =====
-- The recorder of the Pair & test tab and its benchmark (app/webui/app.js).
pub mod Clock
pub mod Machine
pub mod Phases
pub mod Exclusive
pub mod Orphan
pub mod Hasty
pub mod Limit
mod Examples
