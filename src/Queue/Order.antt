-- ===== src/Queue/Order.antt =====
-- zbaselib_queue.c: first in, first out, on the ring of the queue's list.
use zbaselib.Prelude.{
  ℕ, zero, suc, ◌<◌, ◌^◌, ◌≡◌, refl, Option, some, List, [], ◌∷◌, ◌++◌, arith, length,
  length-append, ap,
}
use zbaselib.Prelude.Int.{pos}
use zbaselib.Dlist.Heap.{Ptr, null, Heap, Run, pure, ◌>>=◌}
use zbaselib.Dlist.Defs.{Dlist}
use zbaselib.Dlist.Ring.{Cells, IsRing, payloads}
use zbaselib.Dlist.Add.{IsFresh, addtail-Added}
use zbaselib.Dlist.Delete.{delhead-Deleted, del_empty}
use zbaselib.Dlist.Access.{get-data_at}
use zbaselib.Dlist.Walk.{size-length, is_nil, empty-is_nil}
use zbaselib.Queue.{Queue, push, pop1, peek, size, empty}

abbrev pub on : Dlist → Option Queue
on list = some (record { list = some list })

-- A client that pops `n` times, with what it gets.
unfoldable pub drain : ℕ → Option Queue → Run (List Ptr)
drain zero thiz = pure []
drain (suc n) thiz = do d ← pop1 thiz; ds ← drain n thiz; pure (d ∷ ds)

payloads-snoc : (xs : Cells) (p d : Ptr) → payloads (xs ++ (p, d) ∷ []) ≡ payloads xs ++ d ∷ []
payloads-snoc [] p d = refl
payloads-snoc ((q, e) ∷ xs) p d = ap (λ r. e ∷ r) (payloads-snoc xs p d)

drain-payloads :
    (h : Heap) (list : Dlist) (xs : Cells)
    → IsRing h list.head xs
    → (k : Heap) × (drain (length xs) (on list) h ≡ some (payloads xs, k)) × IsRing k list.head []
unfolding drain pop1
drain-payloads h list [] r = (h, refl, r)
drain-payloads h list ((p, d) ∷ xs) r =
    let (g, run, del) = delhead-Deleted h list p d xs r in
    let (k, run', done) = drain-payloads g list xs del.ring in
    let (_, top, _) = get-data_at h list ((p, d) ∷ xs) 0 r in (k, ground arith, done)

-- `zbaselib_queue_push` with a fresh node answers 0; popping a queue of n elements n + 1 times after
-- it returns the n old data in order and the pushed one last, and leaves the queue empty.
pub drain-push :
    (h : Heap) (list : Dlist) (xs : Cells) (new d : Ptr)
    → IsRing h list.head xs
    → IsFresh h new
    → (g : Heap) × (k : Heap) × (push new (on list) d h ≡ some (pos 0, g))
      × (drain (suc (length xs)) (on list) g ≡ some (payloads xs ++ d ∷ [], k))
      × IsRing k list.head []
unfolding push
drain-push h list xs new d r fresh =
    let (g, run, a) = addtail-Added h list xs new d r fresh in
    let all : Cells = xs ++ (new, d) ∷ [] in
    let (k, run', done) = drain-payloads g list all a.ring in
    let count : length all ≡ suc (length xs) =
      omega (arith, length-append {0} xs ((new, d) ∷ [])) in
    (g, k, ground arith, ground (arith, payloads-snoc xs new d), done)

-- `zbaselib_queue_size`, `_empty` and `_peek` tell the number of elements, whether there is none, and
-- the data that `_pop1` returns next, and change nothing; the size is below 2^31 and needs more fuel than elements.
peek-pop1 :
    (fuel : ℕ) (h : Heap) (list : Dlist) (xs : Cells)
    → IsRing h list.head xs
    → length xs < fuel
    → length xs < 2 ^ 31
    → (size fuel (on list) h ≡ some (pos (length xs), h))
      × (empty (on list) h ≡ some (is_nil xs, h))
      × (d : Ptr) × (k : Heap) × (peek (on list) h ≡ some (d, h))
      × (pop1 (on list) h ≡ some (d, k))
unfolding size empty peek pop1
peek-pop1 fuel h list [] r lt small =
    let (_, top, _) = get-data_at h list [] 0 r in
    let (none_left, _, _) = del_empty h list 0 r in
    (
      ground (arith, size-length h list fuel [] r),
      empty-is_nil h list [] r,
      null,
      h,
      ground arith,
      ground arith,
    )
peek-pop1 fuel h list ((p, d) ∷ xs) r lt small =
    let (_, top, _) = get-data_at h list ((p, d) ∷ xs) 0 r in
    let (g, run, del) = delhead-Deleted h list p d xs r in
    (
      ground (arith, size-length h list fuel ((p, d) ∷ xs) r),
      empty-is_nil h list ((p, d) ∷ xs) r,
      d,
      g,
      ground arith,
      ground arith,
    )
