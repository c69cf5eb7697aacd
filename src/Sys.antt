-- ===== src/Sys.antt =====
-- System services (sys/).
pub mod Mbox
pub mod Timer
mod Tests
