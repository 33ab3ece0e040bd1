-- ===== src/Rbtree/Search.antt =====
-- zbaselib_rbtree.c: search by a key.
use zbaselib.Prelude.{
  ℕ, zero, suc, ◌<◌, Bool, true, false, not, Option, some, List, [], ◌∷◌, ◌++◌, ◌≡◌, ◌≢◌, refl, sym,
  ◌∙◌, subst, arith, ◌⊎◌, inl, inr,
}
use zbaselib.Prelude.Int.{ℤ, pos, negsuc, is_zero}
use zbaselib.Rbtree.Store.{Ptr, null, left, right, Node, Store}
use zbaselib.Rbtree.Defs.{Compare, find_loop, find}
use zbaselib.Rbtree.Tree.{
  Tree, leaf, branch, frame, PathUp, ptr, node_of, parent_of, root_of, count, count_up, Holds, keys,
}
use zbaselib.Rbtree.Focus.{at_focus, down-Holds}
use zbaselib.Rbtree.Order.{IsOrder, comes_before, all, sorted, sorted-around, all_mono, all-append}
use zbaselib.Rbtree.Descent.{depth}
use zbaselib.Rbtree.Shape.{IsRbtree}

-- The sign of a comparison turns round with its arguments.
pub record IsThreeWay (cmp : Compare) : Type 0 where
  pub order : IsOrder cmp
  pub positive : (a b : Ptr) → (k : ℕ) → cmp a b ≡ pos (suc k) → comes_before cmp b a ≡ true
  pub zero_way :
      (a b : Ptr)
      → cmp a b ≡ pos 0
      → (comes_before cmp a b ≡ false) × (comes_before cmp b a ≡ false)

-- The keys that do not compare equal to `key`
abbrev pub misses : Compare → (key : Ptr) → List Ptr → Bool
misses cmp key ks = all (λ e. not (is_zero (cmp e key))) ks

-- A search that returns: NULL if no key compares equal, or a node whose key does.
pub record Searched (cmp : Compare) (key : Ptr) (st : Store) (ks : List Ptr) (run : Option Ptr)
    : Type 0 where
  pub result : Ptr
  pub run_eq : run ≡ some result
  pub answer :
      ((result ≡ null) × (misses cmp key ks ≡ true))
      ⊎ ((n : Node) × (st.cell result ≡ some n) × (cmp n.key key ≡ pos 0) × (result ≢ null))

data Sign (z : ℤ) : Type 0 where
  zero_sign : z ≡ pos 0 → Sign z
  plus : (i : ℕ) → z ≡ pos (suc i) → Sign z
  minus : (i : ℕ) → z ≡ negsuc i → Sign z

signs : (z : ℤ) → Sign z
signs (pos zero) = zero_sign refl
signs (pos (suc i)) = plus i refl
signs (negsuc i) = minus i refl

module _ (cmp : Compare) (w : IsThreeWay cmp) (key : Ptr) where
  not_zero :
      (a : Ptr)
      → (comes_before cmp a key ≡ true) ⊎ (comes_before cmp key a ≡ true)
      → not (is_zero (cmp a key)) ≡ true
  not_zero a h = ground (arith, w.zero_way a key)

  -- All keys after one that comes after `key` miss it, and all before one that comes before it.
  misses_after :
      (k : Ptr)
      → (ys : List Ptr) → comes_before cmp key k ≡ true
      → all (λ e. not (comes_before cmp e k)) ys ≡ true
      → misses cmp key ys ≡ true
  misses_after k ys e =
      all_mono (λ f. not (comes_before cmp f k)) (λ f. not (is_zero (cmp f key))) ys
        (λ f h. ground (arith, not_zero f, w.order.through k f key, e))

  misses_before :
      (k : Ptr)
      → (xs : List Ptr) → comes_before cmp k key ≡ true
      → all (λ e. not (comes_before cmp k e)) xs ≡ true
      → misses cmp key xs ≡ true
  misses_before k xs e =
      all_mono (λ f. not (comes_before cmp k f)) (λ f. not (is_zero (cmp f key))) xs
        (λ f h. ground (arith, not_zero f, w.order.through key f k, e))

  misses-keys :
      (xs : List Ptr)
      → (k : Ptr) → (ys : List Ptr) → misses cmp key xs ≡ true
      → not (is_zero (cmp k key)) ≡ true
      → misses cmp key ys ≡ true
      → misses cmp key (xs ++ (k ∷ ys)) ≡ true
  unfolding all
  misses-keys xs k ys hx hk hy =
      ground (arith, all-append (λ e. not (is_zero (cmp e key))) xs (k ∷ ys))

  module _ (st : Store) (s0 : Node) (top : Ptr) (kids : (s0.left_kid ≡ 0) × (s0.right_kid ≡ 0))
      (odd : cmp s0.key key ≢ pos 0) where
    abbrev Finds : ℕ → Tree → Type 0
    Finds fuel t = Searched cmp key st (keys t) (find_loop fuel cmp key (ptr st.sentinel t) st)

    at_sentinel :
        (fuel : ℕ)
        → st.cell st.sentinel ≡ some s0
        → st.sentinel ≢ 0
        → find_loop (suc (suc fuel)) cmp key st.sentinel st ≡ some null
    unfolding find_loop
    at_sentinel fuel e ne = ground (arith, e, kids, odd)

    find-here :
        (fuel : ℕ)
        → (a : Ptr) → {n : Node} → st.cell a ≡ some n
        → a ≢ 0
        → cmp n.key key ≡ pos 0
        → find_loop (suc fuel) cmp key a st ≡ some a
    unfolding find_loop
    find-here fuel a e ne z = ground (arith, e, z)

    find-left :
        (fuel : ℕ)
        → (a : Ptr) → {n : Node} → {i : ℕ} → st.cell a ≡ some n
        → a ≢ 0
        → cmp n.key key ≡ pos (suc i)
        → find_loop (suc fuel) cmp key a st ≡ find_loop fuel cmp key n.left_kid st
    unfolding find_loop
    find-left fuel a e ne z = ground (arith, e, z)

    find-right :
        (fuel : ℕ)
        → (a : Ptr) → {n : Node} → {i : ℕ} → st.cell a ≡ some n
        → a ≢ 0
        → cmp n.key key ≡ negsuc i
        → find_loop (suc fuel) cmp key a st ≡ find_loop fuel cmp key n.right_kid st
    unfolding find_loop
    find-right fuel a e ne z = ground (arith, e, z)

    nonnull :
        (l : Tree)
        → (a k : Ptr) → (c : Bool) → (r : Tree) → (fs : PathUp)
        → Holds st s0 top (branch l a k c r) fs
        → a ≢ 0
    unfolding count
    nonnull l a k c r fs h = ground (arith, h.null_out)

    -- The answer for one side, when the rest of the tree misses the key
    widen :
        (ks all_keys : List Ptr)
        → {run run' : Option Ptr} → run' ≡ run
        → (misses cmp key ks ≡ true → misses cmp key all_keys ≡ true)
        → Searched cmp key st ks run
        → Searched cmp key st all_keys run'
    widen ks all_keys e f d = record {
      result = d.result;
      run_eq = e ∙ d.run_eq;
      answer = elim d.answer [ inl (en, m) ↦ inl (en, f m) | inr found ↦ inr found ];
    }

    find_loop-Searched :
        (fuel : ℕ)
        → (t : Tree) → (fs : PathUp) → Holds st s0 top t fs
        → st.sentinel ≢ 0
        → sorted cmp (keys t) ≡ true
        → suc (depth t) < fuel
        → Finds fuel t
    unfolding depth keys all
    find_loop-Searched zero t fs h ne so lt = ground arith
    find_loop-Searched (suc zero) t fs h ne so lt = ground arith
    find_loop-Searched (suc (suc fuel)) leaf fs h ne so lt = record {
      result = null;
      run_eq = at_sentinel fuel (ground (arith, h.cells st.sentinel)) ne;
      answer = inl (refl, refl);
    }
    find_loop-Searched (suc (suc fuel)) (branch l a k c r) fs h ne so lt =
        let at = at_focus left l a k c r st s0 top fs h in
        let (x, y, z, v) = sorted-around cmp (keys l) k (keys r) so in
        let na : a ≢ 0 = nonnull l a k c r fs h in
        elim (signs (cmp k key)) [
          | zero_sign e ↦ record {
            result = a;
            run_eq = find-here (suc fuel) a at na e;
            answer = inr (
              node_of left (ptr st.sentinel l) (ptr st.sentinel r) k (parent_of top fs) c,
              at,
              e,
              na,
            );
          }
          | plus i e ↦
              let later = w.positive k key i e in
              widen (keys l) (keys l ++ (k ∷ keys r)) (find-left (suc fuel) a at na e)
                (λ m.
                  misses-keys (keys l) k (keys r) m (not_zero k (inr later))
                    (misses_after k (keys r) later y))
                (find_loop-Searched (suc fuel) l (frame left a k c r ∷ fs)
                  (down-Holds left l a k c r st s0 top fs h) ne z (omega (arith, lt)))
          | minus i e ↦
              let sooner : comes_before cmp k key ≡ true = ground (arith, e) in
              widen (keys r) (keys l ++ (k ∷ keys r)) (find-right (suc fuel) a at na e)
                (λ m.
                  misses-keys (keys l) k (keys r) (misses_before k (keys l) sooner x)
                    (not_zero k (inl sooner)) m)
                (find_loop-Searched (suc fuel) r (frame right a k c l ∷ fs)
                  (down-Holds right r a k c l st s0 top fs h) ne v (omega (arith, lt)))
        ]

-- For a comparison that is an order and whose sign turns round with its arguments, and where NULL does not
-- compare equal to the key, a search of a red-black tree ends, with NULL if no key of the tree
-- compares equal, and else with a node whose key does; fuel for two rounds more than the tree is deep is enough.
pub find-Searched :
    (cmp : Compare)
    → IsThreeWay cmp
    → (fuel : ℕ) → (st : Store) → (key : Ptr) → (t : Tree) → IsRbtree cmp st t
    → cmp null key ≢ pos 0
    → suc (depth t) < fuel
    → Searched cmp key st (keys t) (find fuel cmp (some st) key)
unfolding find root_of count count_up
find-Searched cmp w fuel st key t d odd lt =
    let odd' : cmp d.guard.key key ≢ pos 0 = ground (arith, odd, d.guard_blank) in
    subst (λ q. Searched cmp key st (keys t) (find_loop fuel cmp key q st)) (sym d.holds.root_eq)
      (find_loop-Searched cmp w key st d.guard d.top (d.guard_blank.1, d.guard_blank.2) odd' fuel t
        [] d.holds d.guard_some d.in_order lt)
