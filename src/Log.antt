-- ===== src/Log.antt =====
-- src/log.rs: the object log. Records are framed and packed into 4 KiB pages (Log/Body, Log/Page).
pub mod Body
pub mod Decode
pub mod Page
pub mod Writer
pub mod Read
