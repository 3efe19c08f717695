-- ===== src/Shisa.antt =====
-- The user database: the library under db.
pub mod Filename
pub mod Number
pub mod Key
pub mod System
pub mod KeyFiles
pub mod File
pub mod Core
pub mod Config
