-- ===== src/Rbtree/Store.antt =====
-- zbaselib_rbtree.c: the nodes of a tree in memory. A pointer is a number with 0 for NULL; an access
-- through a pointer to no node is a fault, `none`. The code is written out twice with left and right
-- exchanged; here a side is an argument of one definition.
use zbaselib.Prelude.{ℕ, Bool, Option, none, some, ◌==◌, if◌then◌else◌}
use zbaselib.Prelude.Int.{ℤ}

abbrev pub Ptr : Type 0
Ptr = ℕ

abbrev pub null : Ptr
null = 0

pub data Side : Type 0 where
  left right : Side

abbrev pub other : Side → Side
other left = right
other right = left

-- `struct _zbaselib_rbtree_node`; a key is a pointer of the client.
pub record Node : Type 0 where
  pub key : Ptr
  pub left_kid : Ptr
  pub right_kid : Ptr
  pub parent : Ptr
  pub red : Bool

abbrev pub kid : Side → Node → Ptr
kid left n = n.left_kid
kid right n = n.right_kid

abbrev pub with_kid : Side → Ptr → Node → Node
with_kid left p n = record n { left_kid = p }
with_kid right p n = record n { right_kid = p }

abbrev pub with_parent : Ptr → Node → Node
with_parent p n = record n { parent = p }

abbrev pub with_red : Bool → Node → Node
with_red c n = record n { red = c }

-- `struct _zbaselib_rbtree` and the nodes
pub record Store : Type 0 where
  pub cell : Ptr → Option Node
  pub root : Ptr
  pub sentinel : Ptr
  pub size : ℤ

unfoldable pub set_cell : Ptr → Option Node → (Ptr → Option Node) → Ptr → Option Node
set_cell p c cell q = if q == p then c else cell q

abbrev pub write_cell : Option Node → Ptr → (Node → Node) → Store → Option Store
write_cell none p f st = none
write_cell (some n) p f st = some (record st { cell = set_cell p (some (f n)) st.cell })

-- A store into a field of `*p`
unfoldable pub write : Ptr → (Node → Node) → Store → Option Store
unfolding set_cell
write p f st = write_cell (st.cell p) p f st
