-- ===== src/Rbtree/Rotate.antt =====
-- zbaselib_rbtree.c: what the two rotations do to the tree.
use zbaselib.Prelude.{
  Bool, Option, none, some, ◌==◌, if◌then◌else◌, [], ◌∷◌, ◌≡◌, ◌≢◌, ◌⊎◌, Bool-cases, inl, inr, not,
  ◌&&◌, refl, arith,
}
use zbaselib.Rbtree.Store.{
  Ptr, Side, left, right, other, Node, Store, write, set_cell, kid, with_kid, with_parent,
}
use zbaselib.Rbtree.Defs.{rotate, hand_over, lift}
use zbaselib.Rbtree.Tree.{
  Tree, leaf, branch, Frame, frame, PathUp, grow, node_of, ptr, or_else, look, parent_of, look_up,
  root_of, count, count_up, Holds, look-absent, look-ptr, root_of-counted, look_up-parent,
}
use zbaselib.Rbtree.Rotate.Halves.{
  map_node, look-under, root_of_if, handed, lifted, hand_over-handed, lift-lifted,
}
use zbaselib.Rbtree.Rotate.Run.{
  before, after, rotated, rotate-ok, rotate-root, rotate-count, low, high, low', between,
}
mod Halves
mod Run

-- Below another node the upper node is not the root, nor its sibling.
off_path :
    (s : Side) (near : Tree) (a k : Ptr) (c : Bool) (mid : Tree) (b k' : Ptr) (c' : Bool)
    (far : Tree) (st : Store) (s0 : Node) (top : Ptr) (t : Side) (p kp : Ptr) (cp : Bool)
    (sib : Tree) (fs : PathUp)
    (h : Holds st s0 top (before s near a k c mid b k' c' far) (frame t p kp cp sib ∷ fs))
    → (a ≢ st.root) × (a ≢ ptr st.sentinel sib)
unfolding count count_up root_of
off_path s near a k c mid b k' c' far st s0 top t p kp cp sib fs h = (
  elim s [
    | left ↦ ground (arith, h.apart a, h.root_eq, root_of-counted a (frame t p kp cp sib) fs)
    | right ↦ ground (arith, h.apart a, h.root_eq, root_of-counted a (frame t p kp cp sib) fs)
  ],
  elim s [
    | left ↦ ground (arith, h.apart a, h.sentinel_out, look-ptr st.sentinel p sib)
    | right ↦ ground (arith, h.apart a, h.sentinel_out, look-ptr st.sentinel p sib)
  ],
)

-- The nodes after a rotation, by the sides.
rotate-cells :
    (s : Side) (near : Tree) (a k : Ptr) (c : Bool) (mid : Tree) (b k' : Ptr) (c' : Bool)
    (far : Tree) (st : Store) (s0 : Node) (top : Ptr) (fs : PathUp)
    (h : Holds st s0 top (before s near a k c mid b k' c' far) fs) (q : Ptr)
    → (rotated s near a k c mid b k' c' far st s0 top fs h).cell q ≡ (
        if q == st.sentinel
        then some s0
        else or_else
            (look st.sentinel (parent_of top fs) (after s near a k c mid b k' c' far) q)
            (look_up st.sentinel top b fs q))
unfolding look look_up count count_up root_of
rotate-cells left near a k c mid b k' c' far st s0 top [] h q = ground (
  arith,
  h.root_eq,
  h.cells q,
  h.apart q,
  h.sentinel_out,
  look-ptr st.sentinel b mid,
  look-under st.sentinel b a mid q,
  look-absent st.sentinel a near q,
)
rotate-cells left near a k c mid b k' c' far st s0 top (frame left p kp cp sib ∷ fs) h q =
    let off = off_path left near a k c mid b k' c' far st s0 top left p kp cp sib fs h in
    elim (Bool-cases (q == p)) [
      | inl e ↦ ground (
        arith,
        off,
        h.cells q,
        h.apart q,
        h.sentinel_out,
        look-ptr st.sentinel b mid,
        look-under st.sentinel b a mid q,
        look-absent st.sentinel a near q,
        look-absent st.sentinel b far q,
        look-absent st.sentinel b mid q,
      )
      | inr e ↦ ground (
        arith,
        off.0,
        h.cells q,
        h.apart q,
        h.sentinel_out,
        look-ptr st.sentinel b mid,
        look-under st.sentinel b a mid q,
        look-absent st.sentinel a near q,
      )
    ]
rotate-cells left near a k c mid b k' c' far st s0 top (frame right p kp cp sib ∷ fs) h q =
    let off = off_path left near a k c mid b k' c' far st s0 top right p kp cp sib fs h in
    elim (Bool-cases (q == p)) [
      | inl e ↦ ground (
        arith,
        off,
        h.cells q,
        h.apart q,
        h.sentinel_out,
        look-ptr st.sentinel b mid,
        look-under st.sentinel b a mid q,
        look-absent st.sentinel a near q,
        look-absent st.sentinel b far q,
        look-absent st.sentinel b mid q,
      )
      | inr e ↦ ground (
        arith,
        off.0,
        h.cells q,
        h.apart q,
        h.sentinel_out,
        look-ptr st.sentinel b mid,
        look-under st.sentinel b a mid q,
        look-absent st.sentinel a near q,
      )
    ]
rotate-cells right near a k c mid b k' c' far st s0 top [] h q = ground (
  arith,
  h.root_eq,
  h.cells q,
  h.apart q,
  h.sentinel_out,
  look-ptr st.sentinel b mid,
  look-under st.sentinel b a mid q,
  look-absent st.sentinel b far q,
)
rotate-cells right near a k c mid b k' c' far st s0 top (frame left p kp cp sib ∷ fs) h q =
    let off = off_path right near a k c mid b k' c' far st s0 top left p kp cp sib fs h in
    elim (Bool-cases (q == p)) [
      | inl e ↦ ground (
        arith,
        off,
        h.cells q,
        h.apart q,
        h.sentinel_out,
        look-ptr st.sentinel b mid,
        look-under st.sentinel b a mid q,
        look-absent st.sentinel a near q,
        look-absent st.sentinel b far q,
        look-absent st.sentinel b mid q,
      )
      | inr e ↦ ground (
        arith,
        off.0,
        h.cells q,
        h.apart q,
        h.sentinel_out,
        look-ptr st.sentinel b mid,
        look-under st.sentinel b a mid q,
        look-absent st.sentinel b far q,
      )
    ]
rotate-cells right near a k c mid b k' c' far st s0 top (frame right p kp cp sib ∷ fs) h q =
    let off = off_path right near a k c mid b k' c' far st s0 top right p kp cp sib fs h in
    elim (Bool-cases (q == p)) [
      | inl e ↦ ground (
        arith,
        off,
        h.cells q,
        h.apart q,
        h.sentinel_out,
        look-ptr st.sentinel b mid,
        look-under st.sentinel b a mid q,
        look-absent st.sentinel a near q,
        look-absent st.sentinel b far q,
        look-absent st.sentinel b mid q,
      )
      | inr e ↦ ground (
        arith,
        off.0,
        h.cells q,
        h.apart q,
        h.sentinel_out,
        look-ptr st.sentinel b mid,
        look-under st.sentinel b a mid q,
        look-absent st.sentinel b far q,
      )
    ]

-- A rotation at a node with a child on the other side, anywhere in a tree that the memory holds, does not fault,
-- and the memory holds the rotated tree after it; the sentinel and the size stay.
pub rotate-Holds :
    (s : Side) (near : Tree) (a k : Ptr) (c : Bool) (mid : Tree) (b k' : Ptr) (c' : Bool)
    (far : Tree) (st : Store) (s0 : Node) (top : Ptr) (fs : PathUp)
    → Holds st s0 top (before s near a k c mid b k' c' far) fs
    → (st' : Store) × (rotate s a st ≡ some st')
      × Holds st' s0 top (after s near a k c mid b k' c' far) fs
      × (st'.sentinel ≡ st.sentinel)
      × (st'.size ≡ st.size)
rotate-Holds s near a k c mid b k' c' far st s0 top fs h =
    let count_eq = rotate-count s near a k c mid b k' c' far st s0 top fs h in
    let e : ptr st.sentinel (after s near a k c mid b k' c' far) ≡ b = elim s [
      | left ↦ ground arith
      | right ↦ ground arith
    ] in
    (
      rotated s near a k c mid b k' c' far st s0 top fs h,
      rotate-ok s near a k c mid b k' c' far st s0 top fs h,
      record {
        cells = λ q. ground (arith, e, rotate-cells s near a k c mid b k' c' far st s0 top fs h q);
        root_eq = ground (arith, e, rotate-root s near a k c mid b k' c' far st s0 top fs h);
        apart = λ q. ground (arith, count_eq q, h.apart q);
        sentinel_out = ground (arith, count_eq st.sentinel, h.sentinel_out);
        null_out = ground (arith, count_eq 0, h.null_out);
        black = h.black;
      },
      refl,
      refl,
    )
