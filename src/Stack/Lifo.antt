-- ===== src/Stack/Lifo.antt =====
-- zbaselib_stack.c: last in, first out, on the ring of the stack's list.
use mathlib.Core.List.{reverse_aux}
use zbaselib.Prelude.{
  ℕ, ◌<◌, ◌≡◌, ◌≢◌, false, Option, none, some, [], ◌∷◌, arith, length, map, true,
}
use zbaselib.Prelude.Int.{pos}
use zbaselib.Dlist.Heap.{Ptr, null, destroyed, Heap}
use zbaselib.Dlist.Defs.{Dlist, call_ddfunc}
use zbaselib.Dlist.Ring.{Cells, IsRing, payloads, has}
use zbaselib.Dlist.Add.{IsFresh, addhead-Added}
use zbaselib.Dlist.Delete.{delhead-Deleted, del_empty}
use zbaselib.Dlist.Access.{get-data_at}
use zbaselib.Dlist.Clear.{foreach-destroy}
use zbaselib.Stack.{Stack, push, pop, pop1, peek, destroy1}

abbrev pub on : Dlist → Option Stack
on list = some (record { list = some list })

-- `zbaselib_stack_push` with a fresh node answers 0 and puts the data on top; `_peek` then returns it,
-- and `_pop1` returns it and leaves a ring of the elements that were there before, its node freed.
pub pop1-push :
    (h : Heap) (list : Dlist) (xs : Cells) (new d : Ptr)
    → IsRing h list.head xs
    → IsFresh h new
    → (g : Heap) × (k : Heap) × (push new (on list) d h ≡ some (pos 0, g))
      × (peek (on list) g ≡ some (d, g))
      × (pop1 (on list) g ≡ some (d, k))
      × IsRing k list.head xs
      × (k.cell new ≡ none)
unfolding push pop1 peek
pop1-push h list xs new d r fresh =
    let (g, run, a) = addhead-Added h list xs new d r fresh in
    let (k, run', del) = delhead-Deleted g list new d xs a.ring in
    let (_, top, _) = get-data_at g list ((new, d) ∷ xs) 0 a.ring in
    (g, k, ground arith, ground arith, ground arith, del.ring, del.freed)

-- `zbaselib_stack_pop1` on a stack that has a destructor returns a pointer, not NULL, that it has just
-- handed to the destructor.
pop1-destroyed :
    (h : Heap) (list : Dlist) (p d : Ptr) (xs : Cells)
    → IsRing h list.head ((p, d) ∷ xs)
    → list.ddfunc ≡ true
    → d ≢ null
    → (g : Heap) × (pop1 (on list) h ≡ some (d, g)) × (g.calls ≡ destroyed d ∷ h.calls)
unfolding pop1
pop1-destroyed h list p d xs r given ne =
    let (g, run, del) = delhead-Deleted h list p d xs r in
    let (_, top, _) = get-data_at h list ((p, d) ∷ xs) 0 r in
    (g, ground arith, ground (arith, del.calls_eq))

-- On an empty stack `_pop` answers 0, `_pop1` and `_peek` return NULL, and nothing changes.
pub pop-empty :
    (h : Heap) (list : Dlist)
    → IsRing h list.head []
    → (pop (on list) h ≡ some (pos 0, h))
      × (pop1 (on list) h ≡ some (null, h))
      × (peek (on list) h ≡ some (null, h))
unfolding pop pop1 peek
pop-empty h list r = ground (arith, get-data_at h list [] 0 r, del_empty h list 0 r)

-- `zbaselib_stack_destroy1` on a stack without a destructor of its own calls the given one on each
-- data once, from the top down, frees every node and touches no other. It needs more fuel than
-- elements.
pub destroy1-once :
    (fuel : ℕ) (h : Heap) (list : Dlist) (xs : Cells)
    → IsRing h list.head xs
    → length xs < fuel
    → list.ddfunc ≡ false
    → (g : Heap) × (destroy1 fuel true (on list) h ≡ some (tt, g))
      × (g.calls ≡ reverse_aux (map destroyed (payloads xs)) h.calls)
      × (g.cell list.head ≡ none)
      × ((q : Ptr) → has q xs ≡ true → g.cell q ≡ none)
      × ((q : Ptr) → q ≢ list.head → has q xs ≡ false → g.cell q ≡ h.cell q)
unfolding destroy1 call_ddfunc
destroy1-once fuel h list xs r lt no_destructor = foreach-destroy list fuel h xs r lt no_destructor
