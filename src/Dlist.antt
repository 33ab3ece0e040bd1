-- ===== src/Dlist.antt =====
-- zbaselib_list.c: the doubly linked list.
pub mod Heap
pub mod Defs
pub mod Ops
pub mod Ring
pub mod Insert
pub mod Link
pub mod Add
pub mod Unlink
pub mod Remove
pub mod Walk
pub mod Search
pub mod Edit
pub mod Delete
pub mod Replace
pub mod Access
pub mod Clear
pub mod Sift
pub mod Iter
pub mod Samples
mod Tests
