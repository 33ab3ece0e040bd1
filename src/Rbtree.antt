-- ===== src/Rbtree.antt =====
-- zbaselib_rbtree.c: the red-black tree on its nodes, with links to the parents and one sentinel.
pub mod Store
pub mod Defs
pub mod Delete
pub mod Tree
pub mod Rotate
mod Focus
mod Balance
mod Repair
mod Loop
mod Rounds
pub mod Order
mod Descent
mod Insert
pub mod Shape
pub mod Push
pub mod Query
pub mod Search
pub mod Depth
mod Tests
