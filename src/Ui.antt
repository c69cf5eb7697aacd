-- ===== src/Ui.antt =====
-- The user interface (ui/).
pub mod Touch
pub mod Stack
pub mod Power
mod Tests
mod PageTests
