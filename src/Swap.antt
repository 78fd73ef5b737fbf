-- ===== src/Swap.antt =====
-- What the page keeps over a swap of a part by htmx (app/webui/app.js).
pub mod Hooks
pub mod Kept
mod Examples
