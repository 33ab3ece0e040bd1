-- ===== src/Rbtree/Defs.antt =====
-- zbaselib_rbtree.c: rotation, insertion and search. A loop takes fuel, and ends in a fault without it.
use zbaselib.Prelude.{
  ℕ, zero, suc, Bool, true, false, Option, none, some, ◌==◌, ◌>>=◌, if◌then◌else◌,
}
use zbaselib.Prelude.Int.{ℤ, pos, negsuc, is_zero}
use zbaselib.Rbtree.Store.{
  Ptr, null, Side, left, right, other, Node, kid, with_kid, with_parent, with_red, Store, set_cell,
  write,
}

-- The first half of a rotation: the subtree between the two nodes goes over to `node`.
unfoldable pub hand_over : Side → (node temp : Ptr) → Store → Option Store
unfolding write
hand_over side node temp st = do
  t ← st.cell temp
  st1 ← write node (with_kid (other side) (kid side t)) st
  t1 ← st1.cell temp
  if kid side t1 == st.sentinel then some st1 else write (kid side t1) (with_parent node) st1

-- The second half: `temp` goes to the place of `node`, and `node` under it.
unfoldable pub lift : Side → (node temp : Ptr) → Store → Option Store
unfolding write
lift side node temp st = do
  n ← st.cell node
  st1 ← write temp (with_parent n.parent) st
  st2 ← if node == st1.root then some (record st1 { root = temp }) else (do
    n1 ← st1.cell node
    p ← st1.cell n1.parent
    write n1.parent (with_kid (if node == kid side p then side else other side) temp) st1)
  st3 ← write temp (with_kid side node) st2
  write node (with_parent temp) st3

-- zbaselib_rbtree_left_rotate at `left`, zbaselib_rbtree_right_rotate at `right`
unfoldable pub rotate : Side → (node : Ptr) → Store → Option Store
rotate side node st = do
  n ← st.cell node
  let temp : Ptr = kid (other side) n
  st1 ← hand_over side node temp st
  lift side node temp st1

-- A comparison function of the client.
abbrev pub Compare : Type 0
Compare = Ptr → Ptr → ℤ

abbrev pub is_negative : ℤ → Bool
is_negative (pos n) = false
is_negative (negsuc n) = true

-- The walk of zbaselib_rbtree_insert_value: the last node, and the side where there is room.
unfoldable pub place : ℕ → Compare → (key temp : Ptr) → Store → Option (Ptr × Side)
place zero cmp key temp st = none
place (suc fuel) cmp key temp st = do
  t ← st.cell temp
  let side : Side = if is_negative (cmp key t.key) then left else right
  let rest = place fuel cmp key (kid side t) st
  if kid side t == st.sentinel then some (temp, side) else rest

unfoldable pub insert_value : ℕ → Compare → (temp node : Ptr) → Store → Option Store
insert_value fuel cmp temp node st = do
  n ← st.cell node
  (at, side) ← place fuel cmp n.key temp st
  st1 ← write at (with_kid side node) st
  st2 ← write node (with_parent at) st1
  st3 ← write node (with_kid left st.sentinel) st2
  st4 ← write node (with_kid right st.sentinel) st3
  write node (with_red true) st4

-- The end of a round: `node` is the child of its parent, and that of its own, on `side`.
unfoldable pub turn_over : Side → (node : Ptr) → Store → Option Store
turn_over side node st = do
  n ← st.cell node
  st1 ← write n.parent (with_red false) st
  p ← st1.cell n.parent
  st2 ← write p.parent (with_red true) st1
  rotate (other side) p.parent st2

-- A round for a black uncle: the node to go on from.
unfoldable pub turn : Side → (node parent : Ptr) → Store → Option (Ptr × Store)
turn side node parent st = do
  p ← st.cell parent
  if node == kid (other side) p
      then (do st1 ← rotate side parent st; st2 ← turn_over side parent st1; some (parent, st2))
      else (do st1 ← turn_over side node st; some (node, st1))

-- One round of the loop that repairs an insertion, where the parent is the child of its parent on `side`.
unfoldable pub push_round : Side → (node parent grand : Ptr) → Store → Option (Ptr × Store)
push_round side node parent grand st = do
  g ← st.cell grand
  let temp : Ptr = kid (other side) g
  u ← st.cell temp
  elim u.red [
    | true ↦ (do
      st1 ← write parent (with_red false) st
      st2 ← write temp (with_red false) st1
      st3 ← write grand (with_red true) st2
      some (grand, st3))
    | false ↦ turn side node parent st
  ]

unfoldable pub push_loop : ℕ → (node : Ptr) → Store → Option Store
push_loop zero node st = none
push_loop (suc fuel) node st = if node == st.root then some st else (do
  n ← st.cell node
  p ← st.cell n.parent
  elim p.red [
    | false ↦ some st
    | true ↦ (do
      g ← st.cell p.parent
      (node', st') ←
          push_round (if n.parent == g.left_kid then left else right) node n.parent p.parent st
      push_loop fuel node' st')
  ])

abbrev pub plus_one : ℤ → ℤ
plus_one (pos n) = pos (suc n)
plus_one (negsuc zero) = pos 0
plus_one (negsuc (suc n)) = negsuc n

-- `fresh` is what calloc returns, which the code takes to be a node.
unfoldable pub push : ℕ → Compare → (fresh key : Ptr) → Store → Option Store
unfolding set_cell
push fuel cmp fresh key st =
    let node : Node = record {
      key = key;
      left_kid = null;
      right_kid = null;
      parent = null;
      red = false;
    } in
    let st0 : Store = record st { cell = set_cell fresh (some node) st.cell } in
    if st.root == st.sentinel
    then some (record st0 {
      cell =
          set_cell fresh (some (record node { left_kid = st.sentinel; right_kid = st.sentinel }))
            st.cell;
      root = fresh;
      size = plus_one st.size;
    })
    else (do
      st1 ← insert_value fuel cmp st.root fresh st0
      st2 ← push_loop fuel fresh st1
      st3 ← write st2.root (with_red false) st2
      some (record st3 { size = plus_one st3.size }))

-- The walk along one side: zbaselib_rbtree_min_intenal, and the walks of popmin, getmin and getmax.
unfoldable pub walk : Side → ℕ → (node : Ptr) → Store → Option Ptr
walk side zero node st = none
walk side (suc fuel) node st = do
  n ← st.cell node
  let rest = walk side fuel (kid side n) st
  if kid side n == st.sentinel then some node else rest

-- zbaselib_rbtree_getmin at `left`, zbaselib_rbtree_getmax at `right`
unfoldable pub get_end : Side → ℕ → Store → Option Ptr
get_end side fuel st =
    if is_zero st.size
    then some null
    else (do p ← walk side fuel st.root st; n ← st.cell p; some n.key)

unfoldable pub find_loop : ℕ → Compare → (key node : Ptr) → Store → Option Ptr
find_loop zero cmp key node st = none
find_loop (suc fuel) cmp key node st = if node == null then some null else (do
  n ← st.cell node
  elim (cmp n.key key) [
    | pos zero ↦ some node
    | pos (suc k) ↦ find_loop fuel cmp key n.left_kid st
    | negsuc k ↦ find_loop fuel cmp key n.right_kid st
  ])

unfoldable pub find : ℕ → Compare → Option Store → (key : Ptr) → Option Ptr
find fuel cmp none key = some null
find fuel cmp (some st) key = find_loop fuel cmp key st.root st

-- A new tree; `sentinel` is what calloc returns for it.
unfoldable pub new_tree : (sentinel : Ptr) → (Ptr → Option Node) → Store
unfolding set_cell
new_tree sentinel cell = record {
  cell =
      set_cell sentinel
        (some
          (record { key = null; left_kid = null; right_kid = null; parent = null; red = false }))
        cell;
  root = sentinel;
  sentinel = sentinel;
  size = pos 0;
}

-- `made` tells whether the calloc of the tree gives a block; `none` is NULL.
unfoldable pub init : (made : Bool) → (sentinel : Ptr) → (Ptr → Option Node) → Option Store
init false sentinel cell = none
init true sentinel cell = some (new_tree sentinel cell)

abbrev pub empty : Store → Bool
empty st = is_zero st.size

abbrev pub size : Store → ℤ
size st = st.size
