-- ===== src/Rbtree/Depth.antt =====
-- zbaselib_rbtree.c: how far down a red-black tree goes.
use zbaselib.Prelude.{
  ℕ, suc, ◌+◌, ◌*◌, ◌^◌, ◌≤◌, ◌<◌, true, false, none, ◌∷◌, ◌≡◌, ◌≢◌, ◌⊎◌, inl, inr, arith,
  if◌then◌else◌, length, length-append, Bool-cases, leb, leb→le,
}
use native.Mathlib.Omega.{pow_step}
use zbaselib.Rbtree.Defs.{Compare, push}
use zbaselib.Rbtree.Store.{Store}
use zbaselib.Rbtree.Tree.{Tree, leaf, branch, keys, nodes}
use zbaselib.Rbtree.Balance.{is_red, height, balanced}
use zbaselib.Rbtree.Descent.{depth}
use zbaselib.Rbtree.Shape.{IsRbtree, Pushed}
use zbaselib.Rbtree.Push.{push-Pushed}
use zbaselib.Rbtree.Order.{IsOrder}
use native.Mathlib.Nat.{pow-le-pow_right}

depth-height : (t : Tree) → balanced t ≡ true → depth t ≤ 2 * height t + (if is_red t then 1 else 0)
unfolding depth height balanced
depth-height leaf b = ground arith
depth-height (branch l a k c r) b = ground (arith, depth-height l, depth-height r)

height-keys : (t : Tree) → balanced t ≡ true → 2 ^ height t ≤ suc (length (keys t))
unfolding height balanced keys
height-keys leaf b = ground arith
height-keys (branch l a k true r) b =
    ground (arith, height-keys l, length-append (keys l) (k ∷ keys r))
height-keys (branch l a k false r) b = ground (
  arith,
  height-keys l,
  height-keys r,
  pow_step 2 (height l),
  length-append (keys l) (k ∷ keys r),
)

le_or_lt : (a b : ℕ) → (a ≤ b) ⊎ (b < a)
le_or_lt a b = elim (Bool-cases (leb a b)) [
  | inl e ↦ inl (leb→le a b e)
  | inr e ↦ inr (ground (arith, e))
]

depth-keys :
    (cmp : Compare)
    → (st : Store) → (t : Tree) → IsRbtree cmp st t
    → (h : ℕ) → suc (length (keys t)) < 2 ^ suc h
    → depth t ≤ 2 * h
depth-keys cmp st t d h few =
    let low : depth t ≤ 2 * height t = ground (arith, depth-height t, d.even, d.black_top) in
    let high : 2 ^ height t ≤ suc (length (keys t)) = height-keys t d.even in
    elim (le_or_lt (suc h) (height t)) [
      | inl le ↦
          let more : 2 ^ suc h ≤ 2 ^ height t = pow-le-pow_right (omega arith) le in
          absurd (omega (arith, few, high, more))
      | inr lt ↦ omega (arith, low, lt)
    ]

-- In an order, a push of a new node, at an address that is not NULL and not in use, into a red-black tree of
-- `n` keys, where `n + 1` is less than `2 ^ (h + 1)`, ends within
-- `2 * h + 1` rounds of each of its loops, and puts the new
-- node with its key in its place and keeps the nodes of the tree.
pub Pushed-depth :
    (cmp : Compare)
    → IsOrder cmp
    → (h fresh key : ℕ) → (st : Store) → st.cell fresh ≡ none
    → fresh ≢ 0
    → (t : Tree) → IsRbtree cmp st t
    → suc (length (keys t)) < 2 ^ suc h
    → Pushed cmp fresh key (nodes t) (push (2 * h + 1) cmp fresh key st)
Pushed-depth cmp o h fresh key st unused nonnull t d few =
    push-Pushed cmp o (2 * h + 1) fresh key st unused nonnull t d
      (omega (arith, depth-keys cmp st t d h few))
