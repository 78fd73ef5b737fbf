-- ===== src/Setup.antt =====
-- What a swap sets up anew on the models tab (`initModelFilters` of app/webui/app.js).
pub mod Wiring
pub mod Bound
pub mod Changes
pub mod Once
mod Examples
