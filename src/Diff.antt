-- ===== src/Diff.antt =====
-- The word diff of app/webui/app.js.
pub mod Subsequence
pub mod Common
pub mod Cells
pub mod Table
pub mod Walk
pub mod Tokens
pub mod Trimmed
pub mod Paint
pub mod Results
pub mod Longest
pub mod Painting
mod Examples
