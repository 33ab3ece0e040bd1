-- ===== src/Rbtree/Rotate/Halves.antt =====
-- zbaselib_rbtree.c: the two halves of a rotation, by the nodes at hand.
use zbaselib.Prelude.{
  Option, none, some, ◌==◌, if◌then◌else◌, [], ◌∷◌, ◌≡◌, ◌≢◌, ◌⊎◌, inl, inr, not, ◌&&◌, arith,
}
use zbaselib.Rbtree.Store.{
  Ptr, Side, left, right, other, Node, Store, write, set_cell, kid, with_kid, with_parent,
}
use zbaselib.Rbtree.Defs.{hand_over, lift}
use zbaselib.Rbtree.Tree.{
  Tree, leaf, branch, frame, PathUp, ptr, look, root_of, count_up, root_of-counted,
}

abbrev pub map_node : (Node → Node) → Option Node → Option Node
map_node f none = none
map_node f (some n) = some (f n)

-- A subtree under another parent
pub look-under :
    (sent par par' : Ptr)
    → (t : Tree) → (q : Ptr) → q ≢ sent
    → look sent par' t q ≡ (
        if q == ptr sent t
        then map_node (with_parent par') (look sent par t q)
        else look sent par t q)
unfolding look
look-under sent par par' leaf q h = ground arith
look-under sent par par' (branch l a k c r) q h = ground arith

pub root_of_if :
    (a b root : Ptr)
    → (fs : PathUp) → root ≡ root_of a fs
    → count_up fs a ≡ 0
    → (if a == root then b else root) ≡ root_of b fs
unfolding root_of
root_of_if a b root [] e h = ground arith
root_of_if a b root (frame s p k c sib ∷ fs) e h =
    ground (arith, root_of-counted a (frame s p k c sib) fs)

-- What the halves of a rotation at `a` over `b` leave, where the nodes are `n` and `t`.
abbrev pub handed : Side → (a b m : Ptr) → (n : Node) → Store → Store
handed s a b m n st = record st {
  cell = λ q.
      if q == a
      then some (with_kid (other s) m n)
      else if q == m && not (q == st.sentinel)
      then map_node (with_parent a) (st.cell q)
      else st.cell q;
}

abbrev pub lifted : Side → (a b par : Ptr) → (n t : Node) → Store → Store
lifted s a b par n t st = record st {
  cell = λ q.
      if q == a
      then some (with_parent b n)
      else if q == b
      then some (with_kid s a (with_parent par t))
      else if q == par && not (a == st.root)
      then map_node (λ p. with_kid (if a == kid s p then s else other s) b p) (st.cell q)
      else st.cell q;
  root = if a == st.root then b else st.root;
}

pub hand_over-handed :
    (s : Side)
    → (st : Store) → {n t : Node} → (a b m : Ptr) → st.cell a ≡ some n
    → st.cell b ≡ some t
    → kid s t ≡ m
    → a ≢ b
    → a ≢ m
    → b ≢ m
    → (m ≡ st.sentinel) ⊎ ((x : Node) × (st.cell m ≡ some x))
    → hand_over s a b st ≡ some (handed s a b m n st)
unfolding hand_over write set_cell
hand_over-handed left st a b m ha hb em ab am bm (inl hm) = ground arith
hand_over-handed left st a b m ha hb em ab am bm (inr hm) = ground arith
hand_over-handed right st a b m ha hb em ab am bm (inl hm) = ground arith
hand_over-handed right st a b m ha hb em ab am bm (inr hm) = ground arith

pub lift-lifted :
    (s : Side)
    → (st : Store) → {n t : Node} → (a b par : Ptr) → st.cell a ≡ some n
    → st.cell b ≡ some t
    → n.parent ≡ par
    → a ≢ b
    → (a ≡ st.root) ⊎ ((p : Node) × (st.cell par ≡ some p) × (par ≢ a) × (par ≢ b) × (a ≢ st.root))
    → lift s a b st ≡ some (lifted s a b par n t st)
unfolding lift write set_cell
lift-lifted left st a b par ha hb ep ab (inl hp) = ground arith
lift-lifted left st a b par ha hb ep ab (inr hp) = ground arith
lift-lifted right st a b par ha hb ep ab (inl hp) = ground arith
lift-lifted right st a b par ha hb ep ab (inr hp) = ground arith
