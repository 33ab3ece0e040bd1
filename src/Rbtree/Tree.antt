-- ===== src/Rbtree/Tree.antt =====
-- zbaselib_rbtree.c: the tree that a store holds, with a path to one of its subtrees.
use zbaselib.Prelude.{
  ℕ, ◌+◌, ◌≤◌, Bool, false, Option, none, some, ◌==◌, if◌then◌else◌, List, [], ◌∷◌, ◌++◌, ◌≡◌, ◌⊎◌,
  inl, inr, refl, sym, ap, ◌∙◌, arith,
}
use zbaselib.Rbtree.Store.{Ptr, Side, left, right, Node, Store}

-- A node's address, key and colour between its subtrees
pub data Tree : Type 0 where
  leaf : Tree
  branch : Tree → (addr key : Ptr) → (c : Bool) → Tree → Tree

-- A step of a path: the side where it goes on from a node, the node, and the other subtree.
pub data Frame : Type 0 where
  frame : Side → (addr key : Ptr) → (c : Bool) → (sibling : Tree) → Frame

-- A path from a subtree up to the root
abbrev pub PathUp : Type 0
PathUp = List Frame

-- A node of which `near` is on the given side
abbrev pub grow : Side → (near : Tree) → (addr key : Ptr) → (c : Bool) → (far : Tree) → Tree
grow left near a k c far = branch near a k c far
grow right near a k c far = branch far a k c near

abbrev pub node_of : Side → (near far : Ptr) → (key parent : Ptr) → Bool → Node
node_of left near far k par c = record {
  key = k;
  left_kid = near;
  right_kid = far;
  parent = par;
  red = c;
}
node_of right near far k par c = record {
  key = k;
  left_kid = far;
  right_kid = near;
  parent = par;
  red = c;
}

-- `sent` is the sentinel.
abbrev pub ptr : (sent : Ptr) → Tree → Ptr
ptr sent leaf = sent
ptr sent (branch l a k c r) = a

abbrev pub or_else : Option Node → Option Node → Option Node
or_else none o = o
or_else (some n) o = some n

-- The node that a subtree under `par` has at an address
unfoldable pub look : (sent par : Ptr) → Tree → Ptr → Option Node
look sent par leaf q = none
look sent par (branch l a k c r) q =
    if q == a
    then some (node_of left (ptr sent l) (ptr sent r) k par c)
    else or_else (look sent a l q) (look sent a r q)

-- The parent of the subtree where a path begins; `top` is what the root has there.
abbrev pub parent_of : (top : Ptr) → PathUp → Ptr
parent_of top [] = top
parent_of top (frame s p k c sib ∷ fs) = p

unfoldable pub look_up : (sent top : Ptr) → (child : Ptr) → PathUp → Ptr → Option Node
unfolding look
look_up sent top child [] q = none
look_up sent top child (frame s p k c sib ∷ fs) q =
    if q == p
    then some (node_of s child (ptr sent sib) k (parent_of top fs) c)
    else or_else (look sent p sib q) (look_up sent top p fs q)

unfoldable pub root_of : Ptr → PathUp → Ptr
root_of child [] = child
root_of child (frame s p k c sib ∷ fs) = root_of p fs

-- How often an address occurs
unfoldable pub count : Tree → Ptr → ℕ
count leaf q = 0
count (branch l a k c r) q = (if q == a then 1 else 0) + (count l q + count r q)

unfoldable pub count_up : PathUp → Ptr → ℕ
unfolding count
count_up [] q = 0
count_up (frame s p k c sib ∷ fs) q = (if q == p then 1 else 0) + (count sib q + count_up fs q)

-- The memory is the sentinel `s0` and the nodes, each at an address of its own.
pub record Holds (st : Store) (s0 : Node) (top : Ptr) (t : Tree) (fs : PathUp) : Type 0 where
  pub cells :
      (q : Ptr)
      → st.cell q ≡ (
          if q == st.sentinel
          then some s0
          else or_else
              (look st.sentinel (parent_of top fs) t q)
              (look_up st.sentinel top (ptr st.sentinel t) fs q))
  pub root_eq : st.root ≡ root_of (ptr st.sentinel t) fs
  pub apart : (q : Ptr) → count t q + count_up fs q ≤ 1
  pub sentinel_out : count t st.sentinel + count_up fs st.sentinel ≡ 0
  pub null_out : count t 0 + count_up fs 0 ≡ 0
  pub black : s0.red ≡ false

unfoldable pub plug : Tree → PathUp → Tree
plug t [] = t
plug t (frame s p k c sib ∷ fs) = plug (grow s t p k c sib) fs

-- The keys, and the addresses, from left to right
unfoldable pub keys : Tree → List Ptr
keys leaf = []
keys (branch l a k c r) = keys l ++ (k ∷ keys r)

-- The nodes from left to right, each by its address and its key
unfoldable pub nodes : Tree → List (Ptr × Ptr)
nodes leaf = []
nodes (branch l a k c r) = nodes l ++ ((a, k) ∷ nodes r)

abbrev pub keys_of : List (Ptr × Ptr) → List Ptr
keys_of [] = []
keys_of ((a, k) ∷ ns) = k ∷ keys_of ns

pub keys_of-append : (ns ms : List (Ptr × Ptr)) → keys_of (ns ++ ms) ≡ keys_of ns ++ keys_of ms
keys_of-append [] ms = refl
keys_of-append ((a, k) ∷ ns) ms = ap (λ ks. k ∷ ks) (keys_of-append ns ms)

pub keys-nodes : (t : Tree) → keys t ≡ keys_of (nodes t)
unfolding keys nodes
keys-nodes leaf = refl
keys-nodes (branch l a k c r) =
    ap (λ ks. ks ++ (k ∷ keys r)) (keys-nodes l)
    ∙ ap (λ ks. keys_of (nodes l) ++ (k ∷ ks)) (keys-nodes r)
    ∙ sym (keys_of-append (nodes l) ((a, k) ∷ nodes r))

pub look-absent :
    (sent par : Ptr) → (t : Tree) → (q : Ptr) → count t q ≡ 0 → look sent par t q ≡ none
unfolding look count
look-absent sent par leaf q h = refl
look-absent sent par (branch l a k c r) q h =
    ground (arith, look-absent sent a l q, look-absent sent a r q)

pub look_up-absent :
    (sent top child : Ptr)
    → (fs : PathUp) → (q : Ptr) → count_up fs q ≡ 0
    → look_up sent top child fs q ≡ none
unfolding look_up count_up
look_up-absent sent top child [] q h = refl
look_up-absent sent top child (frame s p k c sib ∷ fs) q h =
    ground (arith, look-absent sent p sib q, look_up-absent sent top p fs q)

pub root_of-counted :
    (child : Ptr) → (f : Frame) → (fs : PathUp) → 1 ≤ count_up (f ∷ fs) (root_of child (f ∷ fs))
unfolding root_of count_up
root_of-counted child (frame s p k c sib) [] = ground arith
root_of-counted child (frame s p k c sib) (g ∷ fs) = ground (arith, root_of-counted p g fs)

-- A subtree is empty, or has a node at its pointer.
pub look-ptr :
    (sent par : Ptr)
    → (t : Tree)
    → (ptr sent t ≡ sent)
      ⊎ ((n : Node) × (look sent par t (ptr sent t) ≡ some n) × (1 ≤ count t (ptr sent t)))
unfolding look count
look-ptr sent par leaf = inl refl
look-ptr sent par (branch l a k c r) =
    inr (node_of left (ptr sent l) (ptr sent r) k par c, ground arith, ground arith)

-- A path is empty, or has a node that is the parent.
pub look_up-parent :
    (sent top child : Ptr)
    → (fs : PathUp)
    → (root_of child fs ≡ child)
      ⊎ ((n : Node) × (look_up sent top child fs (parent_of top fs) ≡ some n)
          × (1 ≤ count_up fs (parent_of top fs))
          × (1 ≤ count_up fs (root_of child fs)))
unfolding look_up count_up root_of
look_up-parent sent top child [] = inl refl
look_up-parent sent top child (frame s p k c sib ∷ fs) = inr (
  node_of s child (ptr sent sib) k (parent_of top fs) c,
  ground arith,
  ground arith,
  root_of-counted child (frame s p k c sib) fs,
)

pub look-none : (sent par : Ptr) → (t : Tree) → (q : Ptr) → look sent par t q ≡ none → count t q ≡ 0
unfolding look count
look-none sent par leaf q h = refl
look-none sent par (branch l a k c r) q h =
    ground (arith, look-none sent a l q, look-none sent a r q)

pub look_up-none :
    (sent top child : Ptr)
    → (fs : PathUp) → (q : Ptr) → look_up sent top child fs q ≡ none
    → count_up fs q ≡ 0
unfolding look_up count_up
look_up-none sent top child [] q h = refl
look_up-none sent top child (frame s p k c sib ∷ fs) q h =
    ground (arith, look-none sent p sib q, look_up-none sent top p fs q)
