-- ===== src/Dlist/Search.antt =====
-- zbaselib_list.c: `zbaselib_list_find` and `zbaselib_list_foreach` go over the elements in order.
use mathlib.Core.List.{reverse_aux}
use zbaselib.Prelude.{
  ℕ, zero, suc, ◌+◌, ◌^◌, ◌<◌, ◌≡◌, refl, Bool, true, false, some, List, [], ◌∷◌, arith, ap, ◌∙◌,
  Bool-cases, inl, inr, length, get_elem?, take, map, ◌⊎◌,
}
use zbaselib.Prelude.Int.{ℤ, pos, negsuc}
use zbaselib.Dlist.Heap.{Ptr, Event, Heap, call}
use zbaselib.Dlist.Ring.{Cells, Linked, IsRing, payloads}
use zbaselib.Dlist.Defs.{Dlist}
use zbaselib.Dlist.Walk.{Tail, whole-Tail, rest-Tail, load-Tail, load-Tail_next, empty-is_nil}
use zbaselib.Dlist.Ops.{find_loop, find, foreach_loop, foreach}

-- No element passes the test.
abbrev pub NoneIn : (Ptr → Bool) → List Ptr → Type 0
NoneIn cmp [] = Unit {0}
NoneIn cmp (d ∷ ds) = (cmp d ≡ false) × NoneIn cmp ds

-- `r` is the index, counted from `k`, of the first element that passes the test, or -1.
abbrev pub IsFirst : (Ptr → Bool) → List Ptr → ℕ → ℤ → Type 0
IsFirst cmp ds k r =
    ((i : ℕ) × (d : Ptr) × (r ≡ pos (k + i))
      × (get_elem? ds i ≡ some d)
      × (cmp d ≡ true)
      × NoneIn cmp (take i ds))
    ⊎ ((r ≡ negsuc 0) × NoneIn cmp ds)

IsFirst-cons :
    (cmp : Ptr → Bool) (d : Ptr) (ds : List Ptr) (k : ℕ) (r : ℤ)
    → cmp d ≡ false
    → IsFirst cmp ds (k + 1) r
    → IsFirst cmp (d ∷ ds) k r
IsFirst-cons cmp d ds k r miss (inl (i, e, at, eq, hit, before)) =
    inl (suc i, e, at ∙ ap pos (omega arith), eq, hit, (miss, before))
IsFirst-cons cmp d ds k r miss (inr (at, all)) = inr (at, (miss, all))

module _ (cmp : Ptr → Bool) (h : Heap) (thiz : Dlist) where
  find_loop-IsFirst :
      (fuel : ℕ) (a : Ptr) (xs : Cells) (k : ℕ)
      → Tail h thiz.head a xs
      → length xs < fuel
      → k + length xs < 2 ^ 31
      → (r : ℤ) × (find_loop cmp fuel thiz a k h ≡ some (r, h)) × IsFirst cmp (payloads xs) k r
  unfolding find_loop
  find_loop-IsFirst zero a xs k t lt small = absurd (omega arith)
  find_loop-IsFirst (suc fuel) a [] k t lt small =
      let (n, e, l) = load-Tail h thiz.head a [] t in (negsuc 0, ground arith, inr (refl, tt))
  find_loop-IsFirst (suc fuel) a ((p, d) ∷ xs) k t lt small =
      let (n, e, l) = load-Tail h thiz.head a ((p, d) ∷ xs) t in
      let (m, f, v, w) = load-Tail_next h thiz.head a p d xs t in
      let (t', ne) = rest-Tail h thiz.head a p d xs t in
      elim (Bool-cases (cmp d)) [
        | inl hit ↦ (pos k, ground arith, inl (0, d, ap pos (omega arith), refl, hit, tt))
        | inr miss ↦
            let (r, run, first) =
              find_loop-IsFirst fuel p xs (k + 1) t' (omega arith) (omega arith) in
            (r, ground arith, IsFirst-cons cmp d (payloads xs) k r miss first)
      ]

  -- `zbaselib_list_find` in a list of fewer than 2^31 elements returns the index of the first element that `cmp` accepts, or -1 if it
  -- accepts none, and changes nothing, given more fuel than elements.
  pub find-IsFirst :
      (fuel : ℕ) (xs : Cells)
      → IsRing h thiz.head xs
      → length xs < fuel
      → length xs < 2 ^ 31
      → (r : ℤ) × (find cmp fuel (some thiz) h ≡ some (r, h)) × IsFirst cmp (payloads xs) 0 r
  unfolding find
  find-IsFirst fuel [] r lt small =
      (negsuc 0, ground (arith, empty-is_nil h thiz [] r), inr (refl, tt))
  find-IsFirst fuel ((p, d) ∷ xs) r lt small =
      let (i, run, first) =
        find_loop-IsFirst fuel thiz.head ((p, d) ∷ xs) 0 (whole-Tail r) lt (omega (arith, small)) in
      (i, ground (arith, empty-is_nil h thiz ((p, d) ∷ xs) r), first)

Tail-calls :
    (h : Heap) (calls : List Event) (head a : Ptr) (xs : Cells)
    → Tail h head a xs
    → Linked (record h { calls = calls }) a xs head
    → Tail (record h { calls = calls }) head a xs
Tail-calls h calls head a xs t l = record {
  start_ne = t.start_ne;
  rest = l;
  no_head = t.no_head;
  no_null = t.no_null;
}

Linked-calls :
    (h : Heap) (calls : List Event) (a : Ptr) (xs : Cells) (b : Ptr)
    → Linked h a xs b
    → Linked (record h { calls = calls }) a xs b
Linked-calls h calls a [] b l = l
Linked-calls h calls a ((p, d) ∷ xs) b l = (l.0, l.1, l.2, Linked-calls h calls p xs b l.3)

module _ (visit : Ptr → Event) (thiz : Dlist) where
  foreach_loop-calls :
      (fuel : ℕ) (h : Heap) (a : Ptr) (xs : Cells)
      → Tail h thiz.head a xs
      → length xs < fuel
      → foreach_loop (λ d. call (visit d)) fuel thiz a h
        ≡ some (tt, record h { calls = reverse_aux (map visit (payloads xs)) h.calls })
  unfolding foreach_loop call
  foreach_loop-calls zero h a xs t lt = absurd (omega arith)
  foreach_loop-calls (suc fuel) h a [] t lt =
      let (n, e, l) = load-Tail h thiz.head a [] t in ground arith
  foreach_loop-calls (suc fuel) h a ((p, d) ∷ xs) t lt =
      let (n, e, l) = load-Tail h thiz.head a ((p, d) ∷ xs) t in
      let (m, f, v, w) = load-Tail_next h thiz.head a p d xs t in
      let (t', ne) = rest-Tail h thiz.head a p d xs t in
      let h' : Heap = record h { calls = visit d ∷ h.calls } in
      let t'' =
        Tail-calls h h'.calls thiz.head p xs t' (Linked-calls h h'.calls p xs thiz.head t'.rest) in
      ground (arith, foreach_loop-calls fuel h' p xs t'')

  -- `zbaselib_list_foreach` calls `visit` on each element once, from head to tail, and changes
  -- nothing else; on an empty list it answers -1. It needs more fuel than elements.
  pub foreach-calls :
      (fuel : ℕ) (h : Heap) (xs : Cells)
      → IsRing h thiz.head xs
      → length xs < fuel
      → foreach (λ d. call (visit d)) fuel (some thiz) h
        ≡ some (
          elim xs [ [] ↦ negsuc 0 | x ∷ r ↦ pos 0 ],
          record h { calls = reverse_aux (map visit (payloads xs)) h.calls },
        )
  unfolding foreach
  foreach-calls fuel h [] r lt = ground (arith, empty-is_nil h thiz [] r)
  foreach-calls fuel h ((p, d) ∷ xs) r lt = ground (
    arith,
    empty-is_nil h thiz ((p, d) ∷ xs) r,
    foreach_loop-calls fuel h thiz.head ((p, d) ∷ xs) (whole-Tail r),
  )

pub IsRing-calls :
    (h : Heap) (calls : List Event) (head : Ptr) (xs : Cells)
    → IsRing h head xs
    → IsRing (record h { calls = calls }) head xs
IsRing-calls h calls head xs r = record {
  head_ne = r.head_ne;
  head_data = r.head_data;
  links = Linked-calls h calls head xs head r.links;
  apart = r.apart;
  nonnull = r.nonnull;
  distinct = r.distinct;
}
