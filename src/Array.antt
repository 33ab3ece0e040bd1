-- ===== src/Array.antt =====
-- zbaselib_array.c: the growing array.
pub mod Defs
pub mod Cells
pub mod Insert
pub mod Delete
mod Tests
