-- ===== src/Queue/Tests.antt =====
-- Runs of the queue on the list of 7 and 8.
use zbaselib.Prelude.{◌≡◌, some, [], ◌∷◌}
use zbaselib.Prelude.Int.{pos}
use zbaselib.Dlist.Heap.{Heap}
use zbaselib.Dlist.Ring.{IsRing}
use zbaselib.Dlist.Samples.{sample, two, plain, two-IsRing, five-IsFresh}
use zbaselib.Queue.{push}
use zbaselib.Queue.Order.{on, drain, drain-push}

drain-push_example :
    (g : Heap) × (k : Heap) × (push 5 (on plain) 9 sample ≡ some (pos 0, g))
    × (drain 3 (on plain) g ≡ some (7 ∷ 8 ∷ 9 ∷ [], k))
    × IsRing k 1 []
drain-push_example = drain-push sample plain two 5 9 two-IsRing five-IsFresh
