-- ===== src/Var.antt =====
-- src/dpiVar.c: how variables are made, and the bytes that they hold.
pub mod Chunks
pub mod Bytes
pub mod Allocate
pub mod Lob
mod Tests
