-- ===== src/Cleanup.antt =====
-- What the WebUI says of a transcript's cleanup (app/webui/app.js).
pub mod Advice
pub mod Report
pub mod Preview
pub mod Warning
pub mod Counts
pub mod Box
pub mod Release
pub mod Clicks
pub mod Alone
pub mod Stranded
mod Examples
