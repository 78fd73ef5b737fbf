-- ===== src/Benchmark.antt =====
-- What a recording's stop sends, and the figures that it shows (app/webui/app.js).
pub mod Runs
pub mod Figures
mod Examples
