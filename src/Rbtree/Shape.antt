-- ===== src/Rbtree/Shape.antt =====
-- zbaselib_rbtree.c: a red-black tree in memory, and one more node in it.
use zbaselib.Prelude.{
  suc, true, false, not, Option, some, List, [], ◌∷◌, ◌++◌, ◌≡◌, ◌≢◌, refl, length-append, sym, ◌∙◌,
  ap, arith, length,
}
use zbaselib.Prelude.Int.{ℤ, pos}
use zbaselib.Rbtree.Store.{Ptr, Node, Store}
use zbaselib.Rbtree.Defs.{Compare}
use zbaselib.Rbtree.Tree.{
  Tree, leaf, branch, PathUp, Holds, plug, keys, nodes, keys_of, keys_of-append, keys-nodes,
}
use zbaselib.Rbtree.Balance.{is_red, height, balanced, blacken}
use zbaselib.Rbtree.Order.{
  comes_before, all, sorted, lower, upper, keys-plug, lower_nodes, upper_nodes, nodes-plug,
  keys_of-lower, keys_of-upper,
}
use zbaselib.Rbtree.Defs.{plus_one}

-- A red-black tree in memory, in the order of the client
pub record IsRbtree (cmp : Compare) (st : Store) (t : Tree) : Type 0 where
  pub guard : Node
  pub top : Ptr
  pub holds : Holds st guard top t []
  pub even : balanced t ≡ true
  pub black_top : is_red t ≡ false
  pub guard_some : st.sentinel ≢ 0
  pub guard_blank : (guard.key ≡ 0) × (guard.left_kid ≡ 0) × (guard.right_kid ≡ 0)
  pub in_order : sorted cmp (keys t) ≡ true
  pub size_eq : st.size ≡ pos (length (keys t))

pub red_leaf :
    (fresh key : Ptr)
    → (balanced (branch leaf fresh key true leaf) ≡ true)
      × (height (branch leaf fresh key true leaf) ≡ height leaf)
unfolding balanced height
red_leaf fresh key = (refl, refl)

pub blacken-keys : (t : Tree) → keys (blacken t) ≡ keys t
unfolding keys
blacken-keys leaf = refl
blacken-keys (branch l a k c r) = refl

pub blacken-nodes : (t : Tree) → nodes (blacken t) ≡ nodes t
unfolding nodes
blacken-nodes leaf = refl
blacken-nodes (branch l a k c r) = refl

pub blacken-black : (t : Tree) → is_red (blacken t) ≡ false
blacken-black leaf = refl
blacken-black (branch l a k c r) = refl

pub resize-Holds :
    (st : Store)
    → (n : ℤ) → (s0 : Node) → (top : Ptr) → (t : Tree) → (fs : PathUp) → Holds st s0 top t fs
    → Holds (record st { size = n }) s0 top t fs
resize-Holds st n s0 top t fs h = record {
  cells = h.cells;
  root_eq = h.root_eq;
  apart = h.apart;
  sentinel_out = h.sentinel_out;
  null_out = h.null_out;
  black = h.black;
}

pub add_key :
    (key : Ptr)
    → (lo hi : List Ptr)
    → (lo ++ (key ∷ hi) ≢ []) × (length (lo ++ (key ∷ hi)) ≡ suc (length (lo ++ hi)))
add_key key [] hi = (ground arith, refl)
add_key key (x ∷ xs) hi =
    (ground arith, ground (arith, length-append xs (key ∷ hi), length-append xs hi))

pub one_more :
    (key : Ptr)
    → (n : ℤ) → (old new lo hi : List Ptr) → n ≡ pos (length old)
    → old ≡ lo ++ hi
    → new ≡ lo ++ (key ∷ hi)
    → plus_one n ≡ pos (length new)
one_more key n old new lo hi en eo ew =
    ap plus_one en
    ∙ ap (λ ks. pos (suc (length ks))) eo
    ∙ ap pos (sym (add_key key lo hi).1)
    ∙ ap (λ ks. pos (length ks)) (sym ew)

pub keys-slot :
    (t : Tree)
    → (fs : PathUp) → (fresh key : Ptr) → plug leaf fs ≡ t
    → (keys t ≡ lower fs ++ upper fs)
      × (keys (plug (branch leaf fresh key true leaf) fs) ≡ lower fs ++ (key ∷ upper fs))
unfolding keys
keys-slot t fs fresh key e =
    (ap keys (sym e) ∙ keys-plug leaf fs, keys-plug (branch leaf fresh key true leaf) fs)

pub nodes-slot :
    (t : Tree)
    → (fs : PathUp) → (fresh key : Ptr) → plug leaf fs ≡ t
    → (nodes t ≡ lower_nodes fs ++ upper_nodes fs)
      × (nodes (plug (branch leaf fresh key true leaf) fs)
          ≡ lower_nodes fs ++ ((fresh, key) ∷ upper_nodes fs))
unfolding nodes
nodes-slot t fs fresh key e =
    (ap nodes (sym e) ∙ nodes-plug leaf fs, nodes-plug (branch leaf fresh key true leaf) fs)

pub keys-insert :
    (t : Tree)
    → (fs : PathUp) → (fresh key : Ptr)
    → nodes t ≡ lower_nodes fs ++ ((fresh, key) ∷ upper_nodes fs)
    → keys t ≡ lower fs ++ (key ∷ upper fs)
keys-insert t fs fresh key e =
    keys-nodes t
    ∙ ap keys_of e
    ∙ keys_of-append (lower_nodes fs) ((fresh, key) ∷ upper_nodes fs)
    ∙ ap (λ l. l ++ (key ∷ keys_of (upper_nodes fs))) (keys_of-lower fs)
    ∙ ap (λ l. lower fs ++ (key ∷ l)) (keys_of-upper fs)

-- A run that puts the node `fresh` with `key` into a tree of the nodes `old`, each an address with its key, from
-- left to right: after all whose keys are not after it.
pub record Pushed (cmp : Compare) (fresh key : Ptr) (old : List (Ptr × Ptr)) (run : Option Store)
    : Type 0 where
  pub out : Store
  pub tree : Tree
  pub run_eq : run ≡ some out
  pub kept : IsRbtree cmp out tree
  pub lo : List (Ptr × Ptr)
  pub hi : List (Ptr × Ptr)
  pub old_eq : old ≡ lo ++ hi
  pub new_eq : nodes tree ≡ lo ++ ((fresh, key) ∷ hi)
  pub lo_below : all (λ e. not (comes_before cmp key e)) (keys_of lo) ≡ true
  pub hi_above : all (comes_before cmp key) (keys_of hi) ≡ true
