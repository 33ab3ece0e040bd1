-- ===== src/Rbtree/Push.antt =====
-- zbaselib_rbtree.c: an insertion into a red-black tree.
use zbaselib.Prelude.{
  ℕ, ◌+◌, ◌<◌, Bool, true, false, not, none, some, ◌==◌, if◌then◌else◌, [], ◌∷◌, ◌++◌, ◌≡◌, ◌≢◌,
  refl, sym, ◌∙◌, subst, arith,
}
use zbaselib.Rbtree.Store.{Ptr, left, Node, Store, set_cell, write}
use zbaselib.Rbtree.Defs.{Compare, place, insert_value, push, push_loop}
use zbaselib.Rbtree.Tree.{
  Tree, leaf, branch, frame, PathUp, node_of, root_of, count, count_up, Holds, plug, keys, nodes,
  look, look_up,
}
use zbaselib.Rbtree.Focus.{colour-Holds}
use zbaselib.Rbtree.Balance.{is_red, balanced, fits, blacken, unplug-balanced, black_root-plug}
use zbaselib.Rbtree.Order.{
  IsOrder, comes_before, all, sorted, lower, upper, sorted_insert, lower_nodes, upper_nodes,
  keys_of-lower, keys_of-upper,
}
use zbaselib.Rbtree.Descent.{depth, Slot, place-Slot}
use zbaselib.Rbtree.Loop.{Repaired}
use zbaselib.Rbtree.Rounds.{push_loop-Repaired}
use zbaselib.Rbtree.Insert.{hung, hung-Holds, insert_value-hung}
use zbaselib.Rbtree.Defs.{plus_one}
use zbaselib.Rbtree.Store.{with_red}
use zbaselib.Rbtree.Shape.{
  IsRbtree, Pushed, red_leaf, blacken-keys, blacken-nodes, blacken-black, resize-Holds, add_key,
  one_more, keys-slot, nodes-slot, keys-insert,
}

module _ (cmp : Compare) (o : IsOrder cmp) (fuel : ℕ) (fresh key : Ptr) (st : Store)
    (unused : st.cell fresh ≡ none) (nonnull : fresh ≢ 0) where
  push_first : IsRbtree cmp st leaf → Pushed cmp fresh key [] (push fuel cmp fresh key st)
  unfolding push set_cell look look_up count count_up root_of keys nodes balanced sorted all
  push_first d = record {
    out = record st {
      cell = λ q.
          if q == fresh then some (node_of left st.sentinel st.sentinel key 0 false) else st.cell q;
      root = fresh;
      size = plus_one st.size;
    };
    tree = branch leaf fresh key false leaf;
    run_eq = ground (arith, d.holds.root_eq);
    kept = record {
      guard = d.guard;
      top = 0;
      holds = record {
        cells = λ q. ground (arith, d.holds.cells q, d.holds.cells fresh, unused);
        root_eq = refl;
        apart = λ q. ground (arith, unused);
        sentinel_out = ground (arith, d.holds.cells fresh, unused);
        null_out = ground (arith, nonnull);
        black = d.holds.black;
      };
      even = refl;
      black_top = refl;
      guard_some = d.guard_some;
      guard_blank = d.guard_blank;
      in_order = refl;
      size_eq = ground (arith, d.size_eq);
    };
    lo = [];
    hi = [];
    old_eq = refl;
    new_eq = refl;
    lo_below = refl;
    hi_above = refl;
  }

  -- The last steps, from the repaired tree on
  push_last :
      (st2 : Store)
      → (s0 : Node) → (top : Ptr) → (t : Tree) → Holds st2 s0 top t []
      → keys t ≢ []
      → (st3 : Store) × (write st2.root (with_red false) st2 ≡ some st3)
        × Holds st3 s0 top (blacken t) []
        × (st3.sentinel ≡ st2.sentinel)
        × (st3.size ≡ st2.size)
  unfolding root_of keys
  push_last st2 s0 top leaf h ne = absurd (ne refl)
  push_last st2 s0 top (branch l a k c r) h ne =
      let (st3, e, h', e1, e2, e3) = colour-Holds left l a k c false r st2 s0 top [] h in
      (st3, ground (arith, h.root_eq, e), h', e1, e2)

  abbrev blank : Node
  blank = record { key = key; left_kid = 0; right_kid = 0; parent = 0; red = false }

  push-step :
      (st1 st2 st3 : Store)
      → st.root ≢ st.sentinel
      → insert_value fuel cmp st.root fresh
          (record st { cell = set_cell fresh (some blank) st.cell })
        ≡ some st1
      → push_loop fuel fresh st1 ≡ some st2
      → write st2.root (with_red false) st2 ≡ some st3
      → push fuel cmp fresh key st ≡ some (record st3 { size = plus_one st3.size })
  unfolding push
  push-step st1 st2 st3 ne e1 e2 e3 = ground (arith, e1, e2, e3)

  -- The steps from the free place on
  module _ (t : Tree) (d : IsRbtree cmp st t) (filled : st.root ≢ st.sentinel)
      (w : Slot cmp key st d.guard d.top t (0 + depth t) (place fuel cmp key st.root st))
      (lt : depth t < fuel) where
    abbrev up : PathUp
    up = frame w.side w.at w.at_key w.c w.sibling ∷ w.rest

    abbrev st1 : Store
    st1 =
        hung cmp key st d.guard d.top fresh unused nonnull w.side w.at w.at_key w.c w.sibling w.rest
          w.holds blank

    repaired :
        Repaired st1 d.guard d.top
          (nodes (plug (branch leaf fresh key true leaf) up))
          (push_loop fuel fresh st1)
    repaired =
        let h1 =
          hung-Holds cmp key st d.guard d.top fresh unused nonnull w.side w.at w.at_key w.c
            w.sibling w.rest w.holds blank refl in
        let old_even : balanced (plug leaf up) ≡ true =
          subst (λ y. balanced y ≡ true) (sym w.whole_eq) d.even in
        let (b0, f0, z0) = unplug-balanced leaf up old_even in
        let br =
          black_root-plug leaf up (subst (λ y. is_red y ≡ false) (sym w.whole_eq) d.black_top) in
        let (rb, rh) = red_leaf fresh key in
        push_loop-Repaired d.guard d.top fuel (branch leaf fresh key true leaf) up st1 h1 refl rb
          (subst (λ n. fits n up ≡ true) (sym rh) f0) br (omega (arith, w.short, lt))

    module _
        (fixed : Repaired st1 d.guard d.top
          (nodes (plug (branch leaf fresh key true leaf) up))
          (push_loop fuel fresh st1)) where
      fixed_nodes : nodes fixed.tree ≡ lower_nodes up ++ ((fresh, key) ∷ upper_nodes up)
      fixed_nodes = fixed.nodes_eq ∙ (nodes-slot t up fresh key w.whole_eq).1

      fixed_keys : keys fixed.tree ≡ lower up ++ (key ∷ upper up)
      fixed_keys = keys-insert fixed.tree up fresh key fixed_nodes

      finish : Pushed cmp fresh key (nodes t) (push fuel cmp fresh key st)
      finish =
          let (st3, e3, h3, n3, z3) =
            push_last fixed.out d.guard d.top fixed.tree fixed.holds
              (λ e. (add_key key (lower up) (upper up)).0 (sym fixed_keys ∙ e)) in
          let e1 =
            insert_value-hung cmp key st d.guard d.top fresh unused nonnull w.side w.at w.at_key w.c
              w.sibling w.rest w.holds fuel st.root blank refl w.run_eq in
          let old_eq = (keys-slot t up fresh key w.whole_eq).0 in
          let new_eq : keys (blacken fixed.tree) ≡ lower up ++ (key ∷ upper up) =
            blacken-keys fixed.tree ∙ fixed_keys in
          record {
            out = record st3 { size = plus_one st3.size };
            tree = blacken fixed.tree;
            run_eq = push-step st1 fixed.out st3 filled e1 fixed.out_eq e3;
            kept = record {
              guard = d.guard;
              top = d.top;
              holds = resize-Holds st3 (plus_one st3.size) d.guard d.top (blacken fixed.tree) [] h3;
              even = fixed.red_black;
              black_top = blacken-black fixed.tree;
              guard_some = ground (arith, d.guard_some, n3, fixed.sentinel_eq);
              guard_blank = d.guard_blank;
              in_order =
                  subst (λ ks. sorted cmp ks ≡ true) (sym new_eq)
                    (sorted_insert cmp o key (lower up) (upper up) w.below w.above
                      (subst (λ ks. sorted cmp ks ≡ true) old_eq d.in_order));
              size_eq =
                  one_more key st3.size (keys t) (keys (blacken fixed.tree)) (lower up) (upper up)
                    (z3 ∙ fixed.size_eq ∙ d.size_eq) old_eq new_eq;
            };
            lo = lower_nodes up;
            hi = upper_nodes up;
            old_eq = (nodes-slot t up fresh key w.whole_eq).0;
            new_eq = blacken-nodes fixed.tree ∙ fixed_nodes;
            lo_below =
                subst (λ ks. all (λ e. not (comes_before cmp key e)) ks ≡ true)
                  (sym (keys_of-lower up)) w.below;
            hi_above =
                subst (λ ks. all (comes_before cmp key) ks ≡ true) (sym (keys_of-upper up)) w.above;
          }

  push_more :
      (l : Tree)
      → (a k : Ptr) → (c : Bool) → (r : Tree) → IsRbtree cmp st (branch l a k c r)
      → depth (branch l a k c r) < fuel
      → Pushed cmp fresh key (nodes (branch l a k c r)) (push fuel cmp fresh key st)
  unfolding lower upper all plug root_of count count_up
  push_more l a k c r d lt =
      let filled : st.root ≢ st.sentinel = ground (arith, d.holds.root_eq, d.holds.sentinel_out) in
      let w : Slot cmp key st d.guard d.top (branch l a k c r) (0 + depth (branch l a k c r))
          (place fuel cmp key st.root st) =
        subst
          (λ q.
            Slot cmp key st d.guard d.top (branch l a k c r) (0 + depth (branch l a k c r))
              (place fuel cmp key q st))
          (sym d.holds.root_eq)
          (place-Slot cmp o key st d.guard d.top fuel l a k c r [] d.holds d.in_order (refl, refl)
            (omega (arith, lt))) in
      finish (branch l a k c r) d filled w lt (repaired (branch l a k c r) d filled w lt)

  -- In an order, a push of `key` in the new node `fresh`, an address that is not NULL and not in use, leaves a
  -- red-black tree whose nodes from left to right are the old ones, each at its address with its key, with `fresh` and `key` between those whose keys are not
  -- after the new one and those whose keys are; more fuel than the tree is deep is enough.
  pub push-Pushed :
      (t : Tree)
      → IsRbtree cmp st t
      → depth t < fuel
      → Pushed cmp fresh key (nodes t) (push fuel cmp fresh key st)
  unfolding nodes
  push-Pushed leaf d lt = push_first d
  push-Pushed (branch l a k c r) d lt = push_more l a k c r d lt
