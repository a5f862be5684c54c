-- ===== src/Ansi.antt =====
-- internal/ansi: what is removed from terminal output before an agent reads it.
pub mod Compact
pub mod Strip
