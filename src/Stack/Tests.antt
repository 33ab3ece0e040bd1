-- ===== src/Stack/Tests.antt =====
-- Runs of the stack on the list of 7 and 8.
use zbaselib.Prelude.{◌≡◌, refl, ◌≢◌, true, false, none, some, [], ◌∷◌, arith}
use zbaselib.Prelude.Int.{pos}
use zbaselib.Dlist.Heap.{Ptr, Heap, destroyed}
use zbaselib.Dlist.Ring.{IsRing, has}
use zbaselib.Dlist.Samples.{sample, two, plain, two-IsRing, five-IsFresh}
use zbaselib.Stack.{push, pop1, peek, destroy1}
use zbaselib.Stack.Lifo.{on, pop1-push, destroy1-once}

pop1-push_example :
    (g : Heap) × (k : Heap) × (push 5 (on plain) 9 sample ≡ some (pos 0, g))
    × (peek (on plain) g ≡ some (9, g))
    × (pop1 (on plain) g ≡ some (9, k))
    × IsRing k 1 two
    × (k.cell 5 ≡ none)
pop1-push_example = pop1-push sample plain two 5 9 two-IsRing five-IsFresh

destroy1-once_example :
    (g : Heap) × (destroy1 3 true (on plain) sample ≡ some (tt, g))
    × (g.calls ≡ destroyed 8 ∷ destroyed 7 ∷ [])
    × (g.cell 1 ≡ none)
    × ((q : Ptr) → has q two ≡ true → g.cell q ≡ none)
    × ((q : Ptr) → q ≢ 1 → has q two ≡ false → g.cell q ≡ sample.cell q)
destroy1-once_example = destroy1-once 3 sample plain two two-IsRing (omega arith) refl
