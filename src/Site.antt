-- ===== src/Site.antt =====
-- The script of the static site (web/script.js).
pub mod Menu
pub mod Faq
pub mod Opened
pub mod Reveal
mod Examples
