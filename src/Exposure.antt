-- ===== src/Exposure.antt =====
-- The banner that warns of a gateway open to the network (app/webui/app.js).
pub mod Banner
pub mod Dismissed
mod Examples
