-- ===== src/Rbtree/Rotate/Run.antt =====
-- zbaselib_rbtree.c: a rotation at a subtree of the tree that a store holds.
use zbaselib.Prelude.{
  Bool, none, some, ◌==◌, if◌then◌else◌, ◌≡◌, ◌≢◌, ◌⊎◌, inl, inr, not, ◌&&◌, arith,
}
use zbaselib.Rbtree.Store.{Ptr, Side, left, right, other, Node, Store, kid, with_kid, with_parent}
use zbaselib.Rbtree.Defs.{rotate, hand_over, lift}
use zbaselib.Rbtree.Tree.{
  Tree, PathUp, grow, node_of, ptr, look, parent_of, root_of, count, Holds, look-absent, look-ptr,
  look_up-parent,
}
use zbaselib.Rbtree.Rotate.Halves.{root_of_if, handed, lifted, hand_over-handed, lift-lifted}

-- A rotation at a subtree
module _ (s : Side) (near : Tree) (a k : Ptr) (c : Bool) (mid : Tree) (b k' : Ptr) (c' : Bool)
    (far : Tree) where
  abbrev pub before : Tree
  before = grow s near a k c (grow s mid b k' c' far)

  abbrev pub after : Tree
  after = grow s (grow s near a k c mid) b k' c' far

  module _ (st : Store) (s0 : Node) (top : Ptr) (fs : PathUp) (h : Holds st s0 top before fs) where
    abbrev pub low : Node
    low = node_of s (ptr st.sentinel near) b k (parent_of top fs) c

    abbrev pub high : Node
    high = node_of s (ptr st.sentinel mid) (ptr st.sentinel far) k' a c'

    at_low : st.cell a ≡ some low
    unfolding look count
    at_low = elim s [
      | left ↦ ground (arith, h.cells a, h.apart a, h.sentinel_out)
      | right ↦ ground (arith, h.cells a, h.apart a, h.sentinel_out)
    ]

    at_high : st.cell b ≡ some high
    unfolding look count
    at_high = elim s [
      | left ↦
          ground (arith, h.cells b, h.apart b, h.sentinel_out, look-absent st.sentinel a near b)
      | right ↦
          ground (arith, h.cells b, h.apart b, h.sentinel_out, look-absent st.sentinel a near b)
    ]

    apart_nodes : (a ≢ b) × (a ≢ ptr st.sentinel mid) × (b ≢ ptr st.sentinel mid)
    unfolding count
    apart_nodes = elim s [
      | left ↦ ground (arith, h.apart a, h.apart b, h.sentinel_out, look-ptr st.sentinel b mid)
      | right ↦ ground (arith, h.apart a, h.apart b, h.sentinel_out, look-ptr st.sentinel b mid)
    ]

    at_mid :
        (ptr st.sentinel mid ≡ st.sentinel)
        ⊎ ((m : Node) × (st.cell (ptr st.sentinel mid) ≡ some m))
    unfolding look count
    at_mid = elim (look-ptr st.sentinel b mid) [
      | inl e ↦ inl e
      | inr (m, e, o) ↦
          let q : Ptr = ptr st.sentinel mid in
          inr (
            m,
            elim s [
              | left ↦ ground (
                arith,
                h.cells q,
                h.apart q,
                h.sentinel_out,
                look-absent st.sentinel a near q,
                look-absent st.sentinel b far q,
              )
              | right ↦ ground (
                arith,
                h.cells q,
                h.apart q,
                h.sentinel_out,
                look-absent st.sentinel a near q,
                look-absent st.sentinel b far q,
              )
            ],
          )
    ]

    at_parent :
        (a ≡ st.root)
        ⊎ ((p : Node) × (st.cell (parent_of top fs) ≡ some p)
            × (parent_of top fs ≢ a)
            × (parent_of top fs ≢ b)
            × (a ≢ st.root))
    unfolding look count
    at_parent = elim (look_up-parent st.sentinel top a fs) [
      | inl e ↦
          inl (elim s [ left ↦ ground (arith, h.root_eq) | right ↦ ground (arith, h.root_eq) ])
      | inr (p, e, o, o') ↦
          let q : Ptr = parent_of top fs in
          let out : look st.sentinel (parent_of top fs) before q ≡ none =
            ground (arith, look-absent st.sentinel (parent_of top fs) before q, h.apart q) in
          inr (
            p,
            elim s [
              | left ↦ ground (arith, h.cells q, h.sentinel_out, out)
              | right ↦ ground (arith, h.cells q, h.sentinel_out, out)
            ],
            elim s [ left ↦ ground (arith, h.apart a) | right ↦ ground (arith, h.apart a) ],
            elim s [ left ↦ ground (arith, h.apart b) | right ↦ ground (arith, h.apart b) ],
            elim s [
              | left ↦ ground (arith, h.apart a, h.root_eq)
              | right ↦ ground (arith, h.apart a, h.root_eq)
            ],
          )
    ]

    abbrev pub between : Store
    between = handed s a b (ptr st.sentinel mid) low st

    abbrev pub low' : Node
    low' = with_kid (other s) (ptr st.sentinel mid) low

    abbrev pub rotated : Store
    rotated = lifted s a b (parent_of top fs) low' high between

    parent_between :
        (a ≡ between.root)
        ⊎ ((p : Node) × (between.cell (parent_of top fs) ≡ some p)
            × (parent_of top fs ≢ a)
            × (parent_of top fs ≢ b)
            × (a ≢ between.root))
    parent_between = elim at_parent [
      | inl e ↦ inl e
      | inr (p, e, p1, p2, p3) ↦
          let q : Ptr = parent_of top fs in
          inr (
            if q == ptr st.sentinel mid && not (q == st.sentinel) then with_parent a p else p,
            ground arith,
            p1,
            p2,
            p3,
          )
    ]

    pub rotate-ok : rotate s a st ≡ some rotated
    unfolding rotate
    rotate-ok =
        let (n1, n2, n3) = apart_nodes in
        let em : kid s high ≡ ptr st.sentinel mid = elim s [
          | left ↦ ground arith
          | right ↦ ground arith
        ] in
        let first : hand_over s a b st ≡ some between =
          hand_over-handed s st a b (ptr st.sentinel mid) at_low at_high em n1 n2 n3 at_mid in
        let here : between.cell a ≡ some low' = ground arith in
        let top_of : low'.parent ≡ parent_of top fs = elim s [
          | left ↦ ground arith
          | right ↦ ground arith
        ] in
        let over : between.cell b ≡ some high = ground (arith, n1, n3, at_high) in
        let second : lift s a b between ≡ some rotated =
          lift-lifted s between a b (parent_of top fs) here over top_of n1 parent_between in
        elim s [
          | left ↦ ground (arith, at_low, first, second)
          | right ↦ ground (arith, at_low, first, second)
        ]

    pub rotate-root : rotated.root ≡ root_of b fs
    unfolding count
    rotate-root = elim s [
      | left ↦ ground (arith, root_of_if a b st.root fs, h.root_eq, h.apart a)
      | right ↦ ground (arith, root_of_if a b st.root fs, h.root_eq, h.apart a)
    ]

    pub rotate-count : (q : Ptr) → count after q ≡ count before q
    unfolding count
    rotate-count q = elim s [ left ↦ ground arith | right ↦ ground arith ]
