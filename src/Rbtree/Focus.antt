-- ===== src/Rbtree/Focus.antt =====
-- zbaselib_rbtree.c: moves along a path of the tree that a store holds, and the change of a colour.
use zbaselib.Prelude.{Bool, false, some, [], ◌∷◌, ◌≡◌, refl, arith}
use zbaselib.Rbtree.Store.{Ptr, Side, left, right, other, Node, Store, write, set_cell, with_red}
use zbaselib.Rbtree.Tree.{
  Tree, leaf, branch, frame, PathUp, grow, node_of, ptr, look, parent_of, look_up, root_of, count,
  count_up, Holds, look-absent, plug,
}
use zbaselib.Rbtree.Balance.{is_red}

pub up-Holds :
    (s : Side)
    → (t : Tree) → (p k : Ptr) → (c : Bool) → (sib : Tree) → (st : Store) → (s0 : Node)
    → (top : Ptr) → (fs : PathUp) → Holds st s0 top t (frame s p k c sib ∷ fs)
    → Holds st s0 top (grow s t p k c sib) fs
unfolding look look_up count count_up root_of
up-Holds left t p k c sib st s0 top fs h = record {
  cells = λ q. ground (arith, h.cells q, h.apart q, look-absent st.sentinel p t q);
  root_eq = h.root_eq;
  apart = λ q. ground (arith, h.apart q);
  sentinel_out = ground (arith, h.sentinel_out);
  null_out = ground (arith, h.null_out);
  black = h.black;
}
up-Holds right t p k c sib st s0 top fs h = record {
  cells = λ q.
      ground (
        arith,
        h.cells q,
        h.apart q,
        look-absent st.sentinel p t q,
        look-absent st.sentinel p sib q,
      );
  root_eq = h.root_eq;
  apart = λ q. ground (arith, h.apart q);
  sentinel_out = ground (arith, h.sentinel_out);
  null_out = ground (arith, h.null_out);
  black = h.black;
}

pub down-Holds :
    (s : Side)
    → (t : Tree) → (p k : Ptr) → (c : Bool) → (sib : Tree) → (st : Store) → (s0 : Node)
    → (top : Ptr) → (fs : PathUp) → Holds st s0 top (grow s t p k c sib) fs
    → Holds st s0 top t (frame s p k c sib ∷ fs)
unfolding look look_up count count_up root_of
down-Holds left t p k c sib st s0 top fs h = record {
  cells = λ q. ground (arith, h.cells q, h.apart q, look-absent st.sentinel p t q);
  root_eq = h.root_eq;
  apart = λ q. ground (arith, h.apart q);
  sentinel_out = ground (arith, h.sentinel_out);
  null_out = ground (arith, h.null_out);
  black = h.black;
}
down-Holds right t p k c sib st s0 top fs h = record {
  cells = λ q.
      ground (
        arith,
        h.cells q,
        h.apart q,
        look-absent st.sentinel p t q,
        look-absent st.sentinel p sib q,
      );
  root_eq = h.root_eq;
  apart = λ q. ground (arith, h.apart q);
  sentinel_out = ground (arith, h.sentinel_out);
  null_out = ground (arith, h.null_out);
  black = h.black;
}

-- The node of a subtree
pub at_focus :
    (s : Side)
    → (l : Tree) → (p k : Ptr) → (c : Bool) → (r : Tree) → (st : Store) → (s0 : Node) → (top : Ptr)
    → (fs : PathUp) → Holds st s0 top (grow s l p k c r) fs
    → st.cell p ≡ some (node_of s (ptr st.sentinel l) (ptr st.sentinel r) k (parent_of top fs) c)
unfolding look count
at_focus left l p k c r st s0 top fs h = ground (arith, h.cells p, h.sentinel_out)
at_focus right l p k c r st s0 top fs h = ground (arith, h.cells p, h.sentinel_out)

pub colour-Holds :
    (s : Side)
    → (l : Tree) → (p k : Ptr) → (c c' : Bool) → (r : Tree) → (st : Store) → (s0 : Node)
    → (top : Ptr) → (fs : PathUp) → Holds st s0 top (grow s l p k c r) fs
    → (st' : Store) × (write p (with_red c') st ≡ some st')
      × Holds st' s0 top (grow s l p k c' r) fs
      × (st'.sentinel ≡ st.sentinel)
      × (st'.size ≡ st.size)
      × (st'.root ≡ st.root)
unfolding write set_cell look count
colour-Holds s l p k c c' r st s0 top fs h =
    let at = at_focus s l p k c r st s0 top fs h in
    (
      record st {
        cell =
            set_cell p
              (some (node_of s (ptr st.sentinel l) (ptr st.sentinel r) k (parent_of top fs) c'))
              st.cell;
      },
      elim s [ left ↦ ground (arith, at) | right ↦ ground (arith, at) ],
      record {
        cells = λ q. elim s [
          | left ↦ ground (arith, h.cells q, h.sentinel_out)
          | right ↦ ground (arith, h.cells q, h.sentinel_out)
        ];
        root_eq = elim s [ left ↦ ground (arith, h.root_eq) | right ↦ ground (arith, h.root_eq) ];
        apart =
            λ q. elim s [ left ↦ ground (arith, h.apart q) | right ↦ ground (arith, h.apart q) ];
        sentinel_out = elim s [
          | left ↦ ground (arith, h.sentinel_out)
          | right ↦ ground (arith, h.sentinel_out)
        ];
        null_out = elim s [
          | left ↦ ground (arith, h.null_out)
          | right ↦ ground (arith, h.null_out)
        ];
        black = h.black;
      },
      refl,
      refl,
      refl,
    )

pub flip-Holds :
    (s : Side)
    → (t : Tree) → (p k : Ptr) → (c : Bool) → (sib : Tree) → (st : Store) → (s0 : Node)
    → (top : Ptr) → (fs : PathUp) → Holds st s0 top (grow s t p k c sib) fs
    → Holds st s0 top (grow (other s) sib p k c t) fs
flip-Holds left t p k c sib st s0 top fs h = h
flip-Holds right t p k c sib st s0 top fs h = h

-- A subtree with a black root, or none, has a black node at its pointer.
pub at_black :
    (t : Tree)
    → (st : Store) → (s0 : Node) → (top : Ptr) → (fs : PathUp) → Holds st s0 top t fs
    → is_red t ≡ false
    → (n : Node) × (st.cell (ptr st.sentinel t) ≡ some n) × (n.red ≡ false)
at_black leaf st s0 top fs h e = (s0, ground (arith, h.cells st.sentinel), h.black)
at_black (branch l a k c r) st s0 top fs h e = (
  node_of left (ptr st.sentinel l) (ptr st.sentinel r) k (parent_of top fs) c,
  at_focus left l a k c r st s0 top fs h,
  e,
)

pub plug-Holds :
    (t : Tree)
    → (fs : PathUp) → (st : Store) → (s0 : Node) → (top : Ptr) → Holds st s0 top t fs
    → Holds st s0 top (plug t fs) []
unfolding plug
plug-Holds t [] st s0 top h = h
plug-Holds t (frame s p k c sib ∷ fs) st s0 top h =
    plug-Holds (grow s t p k c sib) fs st s0 top (up-Holds s t p k c sib st s0 top fs h)
