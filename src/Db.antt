-- ===== src/Db.antt =====
-- The account database (db/).
pub mod Span
pub mod Ft
pub mod Field
pub mod Payload
pub mod Sort
pub mod Store
pub mod Alloc
pub mod Settings
pub mod Special
pub mod Entry
pub mod Tree
pub mod Move
pub mod Open
pub mod Pin
pub mod Secrets
pub mod StorageFile
pub mod Crypt
pub mod Block
mod Tests
