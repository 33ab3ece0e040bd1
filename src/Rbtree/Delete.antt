-- ===== src/Rbtree/Delete.antt =====
-- zbaselib_rbtree.c: deletion.
use zbaselib.Prelude.{
  ℕ, zero, suc, Bool, true, false, Option, none, some, ◌==◌, ◌>>=◌, not, ◌&&◌, if◌then◌else◌,
}
use zbaselib.Prelude.Int.{ℤ, pos, negsuc, is_zero}
use zbaselib.Rbtree.Store.{
  Ptr, null, Side, left, right, other, Node, kid, with_kid, with_parent, with_red, Store, set_cell,
  write,
}
use zbaselib.Rbtree.Defs.{Compare, rotate, walk, find}

-- What the deletion of `node` takes out: the node that goes from its place, and its only child.
unfoldable pub choose : ℕ → (node : Ptr) → Store → Option (Ptr × Ptr)
unfolding walk
choose fuel node st = do
  n ← st.cell node
  if n.left_kid == st.sentinel
      then some (node, n.right_kid)
      else if n.right_kid == st.sentinel
      then some (node, n.left_kid)
      else (do
        subst ← walk left fuel n.right_kid st
        m ← st.cell subst
        some (subst, if m.left_kid == st.sentinel then m.right_kid else m.left_kid))

-- The side of `parent` where `node` is, by the test of the code.
unfoldable pub side_of : (node : Ptr) → Node → Side
side_of node p = if node == p.left_kid then left else right

unfoldable pub set_parent_unless_sentinel : (p to : Ptr) → Store → Option Store
unfolding write
set_parent_unless_sentinel p to st =
    if p == st.sentinel then some st else write p (with_parent to) st

-- `subst` takes the place of `node`.
unfoldable pub replace : (node subst temp : Ptr) → Store → Option Store
unfolding write side_of set_parent_unless_sentinel
replace node subst temp st = do
  m ← st.cell subst
  st1 ← write temp (with_parent (if m.parent == node then subst else m.parent)) st
  n ← st1.cell node
  st2 ← write subst (with_kid left n.left_kid) st1
  st3 ← write subst (with_kid right n.right_kid) st2
  st4 ← write subst (with_parent n.parent) st3
  st5 ← write subst (with_red n.red) st4
  st6 ←
      if node == st5.root
      then some (record st5 { root = subst })
      else (do p ← st5.cell n.parent; write n.parent (with_kid (side_of node p) subst) st5)
  m' ← st6.cell subst
  st7 ← set_parent_unless_sentinel m'.left_kid subst st6
  set_parent_unless_sentinel m'.right_kid subst st7

-- The lines under `DEBUG stuff`
unfoldable pub clear_node : (node : Ptr) → Store → Option Store
unfolding write
clear_node node st =
    write node (λ n. record n { left_kid = null; right_kid = null; parent = null; key = null }) st

-- The part of a round for a red sibling `w`, where `temp` is the child of its parent on `side`
unfoldable pub turn_red : Side → (parent w : Ptr) → Store → Option Store
unfolding rotate write
turn_red side parent w st = do
  n ← st.cell w
  if n.red
      then (do
        st1 ← write w (with_red false) st
        st2 ← write parent (with_red true) st1
        rotate side parent st2)
      else some st

-- The part for a black outer child of `w`: the sibling afterwards.
unfoldable pub turn_inner : Side → (temp w : Ptr) → Store → Option (Ptr × Store)
unfolding rotate write
turn_inner side temp w st = do
  n ← st.cell w
  far ← st.cell (kid (other side) n)
  if far.red then some (w, st) else (do
    st1 ← write (kid side n) (with_red false) st
    st2 ← write w (with_red true) st1
    st3 ← rotate (other side) w st2
    t ← st3.cell temp
    p ← st3.cell t.parent
    some (kid (other side) p, st3))

-- The part from there to the end of the repair
unfoldable pub turn_outer : Side → (temp w : Ptr) → Store → Option (Ptr × Store)
unfolding rotate write
turn_outer side temp w st = do
  t ← st.cell temp
  p ← st.cell t.parent
  st1 ← write w (with_red p.red) st
  st2 ← write t.parent (with_red false) st1
  n ← st2.cell w
  st3 ← write (kid (other side) n) (with_red false) st2
  st4 ← rotate side t.parent st3
  some (st4.root, st4)

-- One round of the loop that repairs a deletion, where `temp` is the child of its parent on `side`: the
-- node to go on from.
unfoldable pub delete_round : Side → (temp : Ptr) → Store → Option (Ptr × Store)
unfolding turn_red turn_inner turn_outer write
delete_round side temp st = do
  t ← st.cell temp
  p ← st.cell t.parent
  st1 ← turn_red side t.parent (kid (other side) p) st
  t1 ← st1.cell temp
  p1 ← st1.cell t1.parent
  let w : Ptr = kid (other side) p1
  n ← st1.cell w
  near ← st1.cell (kid side n)
  far ← st1.cell (kid (other side) n)
  if not near.red && not far.red
      then (do st2 ← write w (with_red true) st1; some (t1.parent, st2))
      else (do (w', st2) ← turn_inner side temp w st1; turn_outer side temp w' st2)

unfoldable pub delete_loop : ℕ → (temp : Ptr) → Store → Option (Ptr × Store)
unfolding delete_round side_of
delete_loop zero temp st = none
delete_loop (suc fuel) temp st = if temp == st.root then some (temp, st) else (do
  t ← st.cell temp
  elim t.red [
    | true ↦ some (temp, st)
    | false ↦ (do
      p ← st.cell t.parent
      (temp', st') ← delete_round (side_of temp p) temp st
      delete_loop fuel temp' st')
  ])

abbrev pub minus_one : ℤ → ℤ
minus_one (pos zero) = negsuc 0
minus_one (pos (suc n)) = pos n
minus_one (negsuc n) = negsuc (suc n)

abbrev less_one : Store → Store
less_one st = record st { size = minus_one st.size }

-- The repair, from `if (red)` on.
unfoldable pub repair : ℕ → (red : Bool) → (temp : Ptr) → Store → Option Store
unfolding delete_loop write
repair fuel true temp st = some (less_one st)
repair fuel false temp st = do
  (temp', st1) ← delete_loop fuel temp st
  st2 ← write temp' (with_red false) st1
  some (less_one st2)

-- zbaselib_rbtree_delete
unfoldable pub delete : ℕ → (node : Ptr) → Store → Option Store
unfolding choose replace clear_node repair write side_of
delete fuel node st = do
  (subst, temp) ← choose fuel node st
  if subst == st.root
      then (do
        st1 ← write temp (with_red false) (record st { root = temp })
        st2 ← clear_node node st1
        some (less_one st2))
      else (do
        m ← st.cell subst
        p ← st.cell m.parent
        st1 ← write m.parent (with_kid (side_of subst p) temp) st
        st2 ←
            if subst == node
            then (do m1 ← st1.cell subst; write temp (with_parent m1.parent) st1)
            else replace node subst temp st1
        st3 ← clear_node node st2
        repair fuel m.red temp st3)

unfoldable pub free : Ptr → Store → Store
unfolding set_cell
free p st = record st { cell = set_cell p none st.cell }

-- The key, or NULL, and the tree.
unfoldable pub popmin : ℕ → Store → Option (Ptr × Store)
unfolding walk delete free
popmin fuel st = if is_zero st.size then some (null, st) else (do
  p ← walk left fuel st.root st
  n ← st.cell p
  st' ← delete fuel p st
  some (n.key, free p st'))

unfoldable pub delnode : ℕ → Compare → Option Store → (key : Ptr) → Option (ℤ × Option Store)
unfolding find delete free
delnode fuel cmp none key = some (negsuc 0, none)
delnode fuel cmp (some st) key = do
  p ← find fuel cmp (some st) key
  if p == null
      then some (negsuc 0, some st)
      else if key == null
      then some (negsuc 0, some st)
      else (do st' ← delete fuel p st; some (pos 0, some (free p st')))

-- zbaselib_rbtree_deinit, with `rounds` for the fuel of its loop.
unfoldable pub deinit : (rounds fuel : ℕ) → Store → Option Store
unfolding popmin free
deinit zero fuel st = none
deinit (suc rounds) fuel st =
    if is_zero st.size
    then some (free st.sentinel st)
    else (do (key, st') ← popmin fuel st; deinit rounds fuel st')
