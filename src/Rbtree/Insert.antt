-- ===== src/Rbtree/Insert.antt =====
-- zbaselib_rbtree.c: insertion.
use zbaselib.Prelude.{
  ℕ, zero, suc, Bool, true, Option, none, some, ◌==◌, if◌then◌else◌, ◌∷◌, ◌≡◌, ◌≢◌, refl, sym,
  subst, arith, inl, inr, Bool-cases,
}
use zbaselib.Rbtree.Store.{Ptr, Side, left, right, Node, Store, set_cell, write}
use zbaselib.Rbtree.Defs.{Compare, place, insert_value, is_negative}
use zbaselib.Rbtree.Tree.{
  Tree, leaf, branch, frame, PathUp, ptr, node_of, parent_of, root_of, count, count_up, Holds, look,
  look_up, look_up-none,
}

-- A walk in the tree does not see a new node.
place-spare :
    (fuel : ℕ)
    → (cmp : Compare) → (key temp : Ptr) → (st : Store) → (fresh : Ptr) → (x : Node)
    → st.cell fresh ≡ none
    → {r : Ptr × Side} → place fuel cmp key temp st ≡ some r
    → place fuel cmp key temp (record st { cell = set_cell fresh (some x) st.cell }) ≡ some r
unfolding place set_cell
place-spare zero cmp key temp st fresh x h e = e
place-spare (suc fuel) cmp key temp st fresh x h {r} e =
    by_node (st.cell temp) refl (λ q. place-spare fuel cmp key q st fresh x h {r = r})
  where
    by_node :
        (c : Option Node)
        → st.cell temp ≡ c
        → ((q : Ptr)
            → place fuel cmp key q st ≡ some r
            → place fuel cmp key q (record st { cell = set_cell fresh (some x) st.cell }) ≡ some r)
        → place (suc fuel) cmp key temp (record st { cell = set_cell fresh (some x) st.cell })
          ≡ some r
    by_node none ec again = ground (arith, ec, e)
    by_node (some t) ec again = elim (Bool-cases (is_negative (cmp key t.key))) [
      | inl b ↦ ground (arith, ec, e, h, again t.left_kid)
      | inr b ↦ ground (arith, ec, e, h, again t.right_kid)
    ]

-- A new node at a free place
module _ (cmp : Compare) (key : Ptr) (st : Store) (s0 : Node) (top : Ptr) (fresh : Ptr)
    (unused : st.cell fresh ≡ none) (nonnull : fresh ≢ 0) (s : Side) (a k : Ptr) (c : Bool)
    (sib : Tree) (rest : PathUp) (h : Holds st s0 top leaf (frame s a k c sib ∷ rest)) where
  abbrev pub path : PathUp
  path = frame s a k c sib ∷ rest

  abbrev pub hung : Node → Store
  hung x = record st {
    cell = λ q.
        if q == fresh
        then some (node_of left st.sentinel st.sentinel x.key a true)
        else if q == a
        then some (node_of s fresh (ptr st.sentinel sib) k (parent_of top rest) c)
        else st.cell q;
  }

  new_out : (count_up path fresh ≡ 0) × (fresh ≢ st.sentinel)
  unfolding look count
  new_out =
      let e = h.cells fresh in
      let g = look_up-none st.sentinel top st.sentinel path fresh in
      (ground (arith, e, g, unused), ground (arith, e, unused))

  at_parent :
      st.cell a ≡ some (node_of s st.sentinel (ptr st.sentinel sib) k (parent_of top rest) c)
  unfolding look look_up count count_up
  at_parent = ground (arith, h.cells a, h.sentinel_out)

  pub hung-Holds :
      (x : Node) → x.key ≡ key → Holds (hung x) s0 top (branch leaf fresh key true leaf) path
  unfolding look look_up count count_up root_of
  hung-Holds x ex = record {
    cells = λ q. ground (arith, h.cells q, h.apart q, new_out, h.sentinel_out, ex);
    root_eq = h.root_eq;
    apart = λ q. ground (arith, h.apart q, new_out);
    sentinel_out = ground (arith, h.sentinel_out, new_out);
    null_out = ground (arith, h.null_out, nonnull);
    black = h.black;
  }

  pub insert_value-hung :
      (fuel : ℕ)
      → (temp : Ptr) → (x : Node) → x.key ≡ key
      → place fuel cmp key temp st ≡ some (a, s)
      → insert_value fuel cmp temp fresh (record st { cell = set_cell fresh (some x) st.cell })
        ≡ some (hung x)
  unfolding insert_value write set_cell
  insert_value-hung fuel temp x ex e =
      let seen : place fuel cmp x.key temp (record st { cell = set_cell fresh (some x) st.cell })
          ≡ some (a, s) =
        subst
          (λ y.
            place fuel cmp y temp (record st { cell = set_cell fresh (some x) st.cell })
            ≡ some (a, s))
          (sym ex) (place-spare fuel cmp key temp st fresh x unused e) in
      elim s [
        | left ↦ ground (arith, seen, at_parent, unused)
        | right ↦ ground (arith, seen, at_parent, unused)
      ]
