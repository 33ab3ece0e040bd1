-- ===== src/Dlist/Tests.antt =====
-- Runs of the list operations on the list of 7 and 8.
use zbaselib.Prelude.{◌≡◌, refl, ◌≢◌, true, none, some, [], ◌∷◌, arith, ◌==◌, get_elem?}
use zbaselib.Prelude.Int.{ℤ, pos}
use zbaselib.Dlist.Heap.{Ptr, Heap}
use zbaselib.Dlist.Ring.{IsRing}
use zbaselib.Dlist.Defs.{Dlist, add, size, create}
use zbaselib.Dlist.Ops.{del, del_use_cond, find, set, destroy}
use zbaselib.Dlist.Samples.{sample, two, owner, plain, two-IsRing, five-IsFresh}
use zbaselib.Dlist.Add.{Added}
use zbaselib.Dlist.Edit.{add-Added}
use zbaselib.Dlist.Remove.{Deleted}
use zbaselib.Dlist.Delete.{del-Deleted}
use zbaselib.Dlist.Walk.{size-length}
use zbaselib.Dlist.Search.{IsFirst, find-IsFirst}
use zbaselib.Dlist.Replace.{Replaced, set-Replaced, set-faults}
use zbaselib.Dlist.Clear.{Destroyed, destroy-Destroyed, create-IsRing}
use zbaselib.Dlist.Sift.{hits, Sifted, del_use_cond-Sifted}
use zbaselib.Dlist.Iter.{Iter, IsAt}

add-Added_example :
    (g : Heap) × (add 5 3 (some owner) 9 (pos 1) sample ≡ some (pos 0, g))
    × Added sample g 1 ((2, 7) ∷ []) ((3, 8) ∷ []) 5 9
add-Added_example =
    add-Added sample owner 5 9 five-IsFresh 3 1 two two-IsRing (omega arith) (omega arith)
      (omega arith)

del-Deleted_example :
    (g : Heap) × (p : Ptr) × (d : Ptr) × (get_elem? two 1 ≡ some (p, d))
    × (del (some owner) (pos 1) sample ≡ some (pos 0, g))
    × Deleted sample g owner ((2, 7) ∷ []) [] p d
del-Deleted_example = del-Deleted sample owner 1 two two-IsRing (omega arith)

size-length_example : size 3 (some owner) sample ≡ some (pos 2, sample)
size-length_example = size-length sample owner 3 two two-IsRing (omega arith) (omega arith)

find-IsFirst_example :
    (r : ℤ) × (find (λ d. d == 8) 3 (some owner) sample ≡ some (r, sample))
    × IsFirst (λ d. d == 8) (7 ∷ 8 ∷ []) 0 r
find-IsFirst_example =
    find-IsFirst (λ d. d == 8) sample owner 3 two two-IsRing (omega arith) (omega arith)

set-Replaced_example :
    (g : Heap) × (set (some owner) 9 (pos 0) sample ≡ some (pos 0, g))
    × Replaced sample g owner [] 2 7 9 ((3, 8) ∷ [])
set-Replaced_example = set-Replaced sample owner 9 0 two 2 7 ((3, 8) ∷ []) two-IsRing refl refl

set-faults_example : set (some plain) 9 (pos 0) sample ≡ none
set-faults_example =
    set-faults sample plain 9 0 two 2 7 ((3, 8) ∷ []) two-IsRing refl (omega arith) refl

destroy-Destroyed_example :
    (g : Heap) × (destroy 3 (some owner) sample ≡ some (none, g)) × Destroyed sample g owner two
destroy-Destroyed_example = destroy-Destroyed owner 3 sample two two-IsRing (omega arith)

create-IsRing_example :
    (thiz : Dlist) × (g : Heap) × (create 5 true sample ≡ some (thiz, g))
    × IsRing g thiz.head []
    × (thiz.ddfunc ≡ true)
    × (g.calls ≡ [])
    × ((q : Ptr) → q ≢ 5 → g.cell q ≡ sample.cell q)
create-IsRing_example = create-IsRing sample 5 true five-IsFresh

del_use_cond-Sifted_example :
    (g : Heap) × (del_use_cond (λ d. d == 7) 3 (some owner) sample ≡ some (pos 1, g))
    × Sifted (λ d. d == 7) sample g owner [] two
unfolding hits
del_use_cond-Sifted_example =
    del_use_cond-Sifted (λ d. d == 7) owner 3 sample two two-IsRing (omega arith) (omega arith)
      (λ e. cc)

abbrev at_first : Iter
at_first = record { list = some owner; node = 2 }

at_first-IsAt : IsAt owner at_first two
at_first-IsAt = record { over = refl; place = refl }
