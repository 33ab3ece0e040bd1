-- ===== src/Rbtree/Tests.antt =====
-- Runs of the red-black tree.
use zbaselib.Prelude.{
  ℕ, zero, suc, ◌≡◌, refl, ltb, ◌+◌, ◌==◌, if◌then◌else◌, true, false, Option, none, some, List, [],
  ◌∷◌, ◌>>=◌, arith,
}
use zbaselib.Prelude.Int.{pos, negsuc}
use zbaselib.Rbtree.Store.{Store, Node, left, right, write, set_cell}
use zbaselib.Rbtree.Defs.{
  Compare, push, init, new_tree, get_end, find, rotate, hand_over, lift, turn_over, turn,
  push_round, push_loop, insert_value, place, walk,
}
use zbaselib.Rbtree.Delete.{popmin}
use zbaselib.Rbtree.Tree.{
  Tree, leaf, branch, keys, nodes, Holds, look, look_up, count, count_up, root_of,
}
use zbaselib.Rbtree.Balance.{height, balanced}
use zbaselib.Rbtree.Order.{IsOrder, sorted, all}
use zbaselib.Rbtree.Descent.{depth}
use zbaselib.Rbtree.Shape.{IsRbtree, Pushed}
use zbaselib.Rbtree.Push.{push-Pushed}
use zbaselib.Rbtree.Query.{new_tree-IsRbtree, end_key, get_end-end_key}
use zbaselib.Rbtree.Search.{IsThreeWay, Searched, find-Searched}
use zbaselib.Rbtree.Depth.{Pushed-depth}
use zbaselib.Rbtree.Rotate.{rotate-Holds}

abbrev by_value : Compare
by_value a b = if a == b then pos 0 else if ltb a b then negsuc 0 else pos 1

-- The keys pushed into nodes from address `p` on.
push_all : ℕ → List ℕ → Store → Option Store
unfolding push
push_all p [] st = some st
push_all p (k ∷ ks) st = do st' ← push 9 by_value p k st; push_all (p + 1) ks st'

-- All keys in the order of popmin.
pop_all : ℕ → Store → Option (List ℕ)
unfolding popmin
pop_all zero st = some []
pop_all (suc n) st = do (key, st') ← popmin 9 st; ks ← pop_all n st'; some (key ∷ ks)

mixed :
    (do
      st0 ← init true 1 (λ p. none)
      st ← push_all 2 (5 ∷ 3 ∷ 8 ∷ 1 ∷ 4 ∷ 7 ∷ 9 ∷ 2 ∷ 6 ∷ []) st0
      pop_all 9 st)
    ≡ some (1 ∷ 2 ∷ 3 ∷ 4 ∷ 5 ∷ 6 ∷ 7 ∷ 8 ∷ 9 ∷ [])
unfolding push_all pop_all init new_tree push rotate hand_over lift turn_over turn push_round
    push_loop insert_value place write set_cell walk
mixed = refl

rising :
    (do
      st0 ← init true 1 (λ p. none)
      st ← push_all 2 (1 ∷ 2 ∷ 3 ∷ 4 ∷ 5 ∷ 6 ∷ 7 ∷ 8 ∷ []) st0
      pop_all 8 st)
    ≡ some (1 ∷ 2 ∷ 3 ∷ 4 ∷ 5 ∷ 6 ∷ 7 ∷ 8 ∷ [])
unfolding push_all pop_all init new_tree push rotate hand_over lift turn_over turn push_round
    push_loop insert_value place write set_cell walk
rising = refl

by_value-IsOrder : IsOrder by_value
by_value-IsOrder = record { through = λ a b c h g. ground arith; one_way = λ a b h. ground arith }

by_value-IsThreeWay : IsThreeWay by_value
by_value-IsThreeWay = record {
  order = by_value-IsOrder;
  positive = λ a b k e. ground arith;
  zero_way = λ a b e. ground arith;
}

-- A black root, at address 2, with a red child on the right
abbrev two_tree : Tree
two_tree = branch leaf 2 5 false (branch leaf 3 8 true leaf)

abbrev guard : Node
guard = record { key = 0; left_kid = 0; right_kid = 0; parent = 0; red = false }

abbrev two : Store
two = record {
  cell = λ q.
      if q == 1
      then some guard
      else if q == 2
      then some (record { key = 5; left_kid = 1; right_kid = 3; parent = 0; red = false })
      else if q == 3
      then some (record { key = 8; left_kid = 1; right_kid = 1; parent = 2; red = true })
      else none;
  root = 2;
  sentinel = 1;
  size = pos 2;
}

two-Holds : Holds two guard 0 two_tree []
unfolding look look_up count count_up root_of
two-Holds = record {
  cells = λ q. ground arith;
  root_eq = refl;
  apart = λ q. ground arith;
  sentinel_out = refl;
  null_out = refl;
  black = refl;
}

two-IsRbtree : IsRbtree by_value two two_tree
unfolding keys balanced height sorted all
two-IsRbtree = record {
  guard = guard;
  top = 0;
  holds = two-Holds;
  even = refl;
  black_top = refl;
  guard_some = ground arith;
  guard_blank = (refl, refl, refl);
  in_order = refl;
  size_eq = refl;
}

two_depth : depth two_tree ≡ 2
unfolding depth
two_depth = refl

push-Pushed_example : Pushed by_value 4 9 (nodes two_tree) (push 3 by_value 4 9 two)
push-Pushed_example =
    push-Pushed by_value by_value-IsOrder 3 4 9 two refl (ground arith) two_tree two-IsRbtree
      (omega (arith, two_depth))

find-Searched_example : Searched by_value 8 two (keys two_tree) (find 4 by_value (some two) 8)
find-Searched_example =
    find-Searched by_value by_value-IsThreeWay 4 two 8 two_tree two-IsRbtree (ground arith)
      (omega (arith, two_depth))

get_end-end_key_example : get_end right 2 two ≡ some (end_key right (keys two_tree))
get_end-end_key_example =
    get_end-end_key by_value right 2 two two_tree two-IsRbtree (omega (arith, two_depth))

rotate-Holds_example :
    (st' : Store) × (rotate left 2 two ≡ some st')
    × Holds st' guard 0 (branch (branch leaf 2 5 false leaf) 3 8 true leaf) []
    × (st'.sentinel ≡ two.sentinel)
    × (st'.size ≡ two.size)
rotate-Holds_example = rotate-Holds left leaf 2 5 false leaf 3 8 true leaf two guard 0 [] two-Holds

Pushed-depth_example :
    Pushed by_value 2 9 (nodes leaf) (push 1 by_value 2 9 (new_tree 1 (λ p. none)))
unfolding new_tree set_cell keys nodes
Pushed-depth_example =
    Pushed-depth by_value by_value-IsOrder 0 2 9 (new_tree 1 (λ p. none)) (ground arith)
      (ground arith) leaf (new_tree-IsRbtree by_value 1 (ground arith)) (omega arith)
