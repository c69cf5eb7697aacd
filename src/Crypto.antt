-- ===== src/Crypto.antt =====
-- Codings and one-time passwords (crypto/).
pub mod Base32
pub mod Hotp
mod Tests
