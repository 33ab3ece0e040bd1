-- ===== src/Rbtree/Query.antt =====
-- zbaselib_rbtree.c: a new tree, the least and the greatest key, and search.
use zbaselib.Prelude.{
  ℕ, zero, suc, ◌≤◌, Bool, false, none, some, ◌==◌, if◌then◌else◌, List, [], ◌∷◌, ◌++◌, ◌≡◌, ◌≢◌,
  refl, sym, ◌∙◌, arith, length,
}
use zbaselib.Prelude.Int.{ℤ, pos, is_zero}
use zbaselib.Rbtree.Store.{Ptr, null, Side, left, right, Node, Store, kid, set_cell}
use zbaselib.Rbtree.Defs.{Compare, walk, get_end, new_tree}
use zbaselib.Rbtree.Tree.{
  Tree, leaf, branch, frame, PathUp, ptr, node_of, parent_of, root_of, count, count_up, Holds, keys,
  look, look_up,
}
use zbaselib.Rbtree.Focus.{at_focus, down-Holds}
use zbaselib.Rbtree.Balance.{balanced}
use zbaselib.Rbtree.Order.{sorted}
use zbaselib.Rbtree.Descent.{depth}
use zbaselib.Rbtree.Shape.{IsRbtree}

-- A new tree, in a memory with no node, is the empty tree.
pub new_tree-IsRbtree :
    (cmp : Compare)
    → (sentinel : Ptr) → sentinel ≢ 0
    → IsRbtree cmp (new_tree sentinel (λ p. none)) leaf
unfolding new_tree set_cell look look_up count count_up root_of balanced sorted keys
new_tree-IsRbtree cmp sentinel h = record {
  guard = record { key = 0; left_kid = 0; right_kid = 0; parent = 0; red = false };
  top = 0;
  holds = record {
    cells = λ q. ground arith;
    root_eq = refl;
    apart = λ q. ground arith;
    sentinel_out = refl;
    null_out = refl;
    black = refl;
  };
  even = refl;
  black_top = refl;
  guard_some = h;
  guard_blank = (refl, refl, refl);
  in_order = refl;
  size_eq = refl;
}

-- The first key at `left`, the last at `right`; NULL where there is none.
unfoldable pub end_key : Side → List Ptr → Ptr
end_key s [] = null
end_key left (x ∷ xs) = x
end_key right (x ∷ []) = x
end_key right (x ∷ (y ∷ ys)) = end_key right (y ∷ ys)

end_key-append :
    (xs : List Ptr)
    → (k : Ptr) → (ys : List Ptr)
    → (end_key right (xs ++ (k ∷ ys)) ≡ end_key right (k ∷ ys))
      × (xs ≢ [] → end_key left (xs ++ (k ∷ ys)) ≡ end_key left xs)
      × (ys ≢ [] → end_key right (k ∷ ys) ≡ end_key right ys)
unfolding end_key
end_key-append [] k [] = (refl, λ h. absurd (h refl), λ h. absurd (h refl))
end_key-append [] k (y ∷ ys) = (refl, λ h. absurd (h refl), λ h. refl)
end_key-append (x ∷ []) k ys = let (a, b, c) = end_key-append [] k ys in (refl, λ h. refl, c)
end_key-append (x ∷ (y ∷ xs)) k ys =
    let (a, b, c) = end_key-append (y ∷ xs) k ys in (a, λ h. refl, c)

not_nil : (xs : List Ptr) → (k : Ptr) → (ys : List Ptr) → xs ++ (k ∷ ys) ≢ []
not_nil [] k ys = ground arith
not_nil (x ∷ xs) k ys = ground arith

module _ (st : Store) (s0 : Node) (top : Ptr) where
  -- The walk from a subtree along `s` ends at its first or last key.
  abbrev Walks : Side → ℕ → Tree → Type 0
  Walks s fuel t =
      (p : Ptr) × (n : Node) × (walk s fuel (ptr st.sentinel t) st ≡ some p)
      × (st.cell p ≡ some n)
      × (n.key ≡ end_key s (keys t))

  walk-step :
      (s : Side)
      → (fuel : ℕ) → (a q : Ptr) → {n : Node} → st.cell a ≡ some n
      → kid s n ≡ q
      → walk s (suc fuel) a st ≡ (if q == st.sentinel then some a else walk s fuel q st)
  unfolding walk
  walk-step left fuel a q e eq = ground arith
  walk-step right fuel a q e eq = ground arith

  walk_left :
      (fuel : ℕ)
      → (l : Tree) → (a k : Ptr) → (c : Bool) → (r : Tree) → (fs : PathUp)
      → Holds st s0 top (branch l a k c r) fs
      → depth (branch l a k c r) ≤ fuel
      → Walks left fuel (branch l a k c r)
  unfolding depth keys end_key count
  walk_left zero l a k c r fs h lt = ground arith
  walk_left (suc fuel) leaf a k c r fs h lt =
      let at = at_focus left leaf a k c r st s0 top fs h in
      (
        a,
        node_of left st.sentinel (ptr st.sentinel r) k (parent_of top fs) c,
        ground (arith, walk-step left fuel a st.sentinel at refl),
        at,
        refl,
      )
  walk_left (suc fuel) (branch ll b k' c' lr) a k c r fs h lt =
      let l : Tree = branch ll b k' c' lr in
      let at = at_focus left l a k c r st s0 top fs h in
      let (p, n, e, ep, en) =
        walk_left fuel ll b k' c' lr (frame left a k c r ∷ fs)
          (down-Holds left l a k c r st s0 top fs h) (omega (arith, lt)) in
      (
        p,
        n,
        ground (arith, walk-step left fuel a b at refl, e, h.sentinel_out),
        ep,
        en ∙ sym ((end_key-append (keys l) k (keys r)).1 (not_nil (keys ll) k' (keys lr))),
      )

  walk_right :
      (fuel : ℕ)
      → (l : Tree) → (a k : Ptr) → (c : Bool) → (r : Tree) → (fs : PathUp)
      → Holds st s0 top (branch l a k c r) fs
      → depth (branch l a k c r) ≤ fuel
      → Walks right fuel (branch l a k c r)
  unfolding depth keys end_key count
  walk_right zero l a k c r fs h lt = ground arith
  walk_right (suc fuel) l a k c leaf fs h lt =
      let at = at_focus left l a k c leaf st s0 top fs h in
      (
        a,
        node_of left (ptr st.sentinel l) st.sentinel k (parent_of top fs) c,
        ground (arith, walk-step right fuel a st.sentinel at refl),
        at,
        sym (end_key-append (keys l) k []).0,
      )
  walk_right (suc fuel) l a k c (branch rl b k' c' rr) fs h lt =
      let r : Tree = branch rl b k' c' rr in
      let at = at_focus left l a k c r st s0 top fs h in
      let (p, n, e, ep, en) =
        walk_right fuel rl b k' c' rr (frame right a k c l ∷ fs)
          (down-Holds right r a k c l st s0 top fs h) (omega (arith, lt)) in
      (
        p,
        n,
        ground (arith, walk-step right fuel a b at refl, e, h.sentinel_out),
        ep,
        en
            ∙ sym (
                (end_key-append (keys l) k (keys r)).0
                ∙ (end_key-append (keys l) k (keys r)).2 (not_nil (keys rl) k' (keys rr))),
      )

filled :
    (n : ℤ)
    → (xs : List Ptr) → (k : Ptr) → (ys : List Ptr) → n ≡ pos (length (xs ++ (k ∷ ys)))
    → is_zero n ≡ false
filled n [] k ys e = ground arith
filled n (x ∷ xs) k ys e = ground arith

get_end-walk :
    (s : Side)
    → (fuel : ℕ) → (st : Store) → (root p : Ptr) → {n : Node} → (k : Ptr) → is_zero st.size ≡ false
    → st.root ≡ root
    → walk s fuel root st ≡ some p
    → st.cell p ≡ some n
    → n.key ≡ k
    → get_end s fuel st ≡ some k
unfolding get_end
get_end-walk s fuel st root p k ez er e ep en = ground (arith, er, e, ep, en)

-- In a red-black tree getmin gives the first key and getmax the last, and both give NULL for the empty tree;
-- as much fuel as the tree is deep is enough.
pub get_end-end_key :
    (cmp : Compare)
    → (s : Side) → (fuel : ℕ) → (st : Store) → (t : Tree) → IsRbtree cmp st t
    → depth t ≤ fuel
    → get_end s fuel st ≡ some (end_key s (keys t))
unfolding get_end keys end_key root_of
get_end-end_key cmp s fuel st leaf d lt = ground (arith, d.size_eq)
get_end-end_key cmp left fuel st (branch l a k c r) d lt =
    let (p, n, e, ep, en) = walk_left st d.guard d.top fuel l a k c r [] d.holds lt in
    get_end-walk left fuel st a p (end_key left (keys (branch l a k c r)))
      (filled st.size (keys l) k (keys r) d.size_eq) d.holds.root_eq e ep en
get_end-end_key cmp right fuel st (branch l a k c r) d lt =
    let (p, n, e, ep, en) = walk_right st d.guard d.top fuel l a k c r [] d.holds lt in
    get_end-walk right fuel st a p (end_key right (keys (branch l a k c r)))
      (filled st.size (keys l) k (keys r) d.size_eq) d.holds.root_eq e ep en
