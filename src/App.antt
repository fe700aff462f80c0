-- ===== src/App.antt =====
-- The browser application (src/app).
pub mod Ansi
pub mod SearchState
pub mod TableLogic
