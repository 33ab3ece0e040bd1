-- ===== src/Dlist/Clear.antt =====
-- zbaselib_list.c: `zbaselib_list_create`, `_clear` and `_destroy`.
use mathlib.Core.List.{reverse_aux}
use zbaselib.Prelude.{
  map, ℕ, zero, suc, ◌<◌, ◌≡◌, refl, ◌≢◌, Bool, true, false, none, some, List, [], ◌∷◌, ◌++◌, arith,
  ◌==◌, if◌then◌else◌, ap, ◌∙◌, sym, subst, inl, inr, length, ◌⊎◌, append-nil, length-append,
}
use zbaselib.Dlist.Heap.{
  call, Ptr, null, Event, destroyed, Heap, pure, ◌>>=◌, load, set_next, set_prev, modify, put_cell,
  calloc, set_data,
}
use zbaselib.Dlist.Ring.{Cells, has, first_or, IsRing, payloads, node_of_next}
use zbaselib.Dlist.Defs.{Dlist, create, create_node}
use zbaselib.Dlist.Ops.{foreach, clear_loop, clear, destroy}
use zbaselib.Dlist.Link.{created}
use zbaselib.Dlist.Add.{IsFresh, has-insert}
use zbaselib.Dlist.Unlink.{logged, without, destroy_node-ok, Distinct-remove}
use zbaselib.Dlist.Remove.{Deleted}
use zbaselib.Dlist.Search.{foreach-calls, IsRing-calls}
use zbaselib.Dlist.Delete.{deltail-Deleted}
use zbaselib.Dlist.Walk.{whole-Tail, load-Tail, empty-is_nil}

-- The calls after all the data is destroyed, the last first.
unfoldable pub logged_all : Bool → List Ptr → List Event → List Event
logged_all ddfunc [] calls = calls
logged_all ddfunc (d ∷ ds) calls = logged ddfunc d (logged_all ddfunc ds calls)

-- What clearing leaves: an empty ring, all its nodes freed and their data destroyed once each, and
-- nothing else changed.
pub record Cleared (h g : Heap) (thiz : Dlist) (xs : Cells) : Type 0 where
  pub ring : IsRing g thiz.head []
  pub calls_eq : g.calls ≡ logged_all thiz.ddfunc (payloads xs) h.calls
  pub freed : (q : Ptr) → has q xs ≡ true → g.cell q ≡ none
  pub same : (q : Ptr) → q ≢ thiz.head → has q xs ≡ false → g.cell q ≡ h.cell q

snoc_view :
    (xs : Cells) → (xs ≡ []) ⊎ ((ys : Cells) × (p : Ptr) × (d : Ptr) × (xs ≡ ys ++ (p, d) ∷ []))
snoc_view [] = inl refl
snoc_view ((p, d) ∷ xs) = elim (snoc_view xs) [
  | inl e ↦ inr ([], p, d, ap (λ r. (p, d) ∷ r) e)
  | inr (ys, q, e, k) ↦ inr ((p, d) ∷ ys, q, e, ap (λ r. (p, d) ∷ r) k)
]

nothing_logged : (ddfunc : Bool) (calls : List Event) → calls ≡ logged_all ddfunc [] calls
unfolding logged_all
nothing_logged ddfunc calls = refl

first_or-snoc :
    (xs : Cells) (p d b : Ptr) → has (first_or (xs ++ (p, d) ∷ []) b) (xs ++ (p, d) ∷ []) ≡ true
first_or-snoc [] p d b = ground arith
first_or-snoc ((q, e) ∷ xs) p d b = ground arith

payloads-snoc :
    (ddfunc : Bool) (xs : Cells) (p d : Ptr) (calls : List Event)
    → logged_all ddfunc (payloads (xs ++ (p, d) ∷ [])) calls
      ≡ logged_all ddfunc (payloads xs) (logged ddfunc d calls)
unfolding logged_all
payloads-snoc ddfunc [] p d calls = refl
payloads-snoc ddfunc ((q, e) ∷ xs) p d calls =
    ap (logged ddfunc e) (payloads-snoc ddfunc xs p d calls)

module _ (thiz : Dlist) where
  -- One more node cleared at the end.
  Cleared-snoc :
      (h g k : Heap) (ys : Cells) (p d : Ptr)
      → IsRing h thiz.head (ys ++ (p, d) ∷ [])
      → Deleted h g thiz ys [] p d
      → Cleared g k thiz ys
      → Cleared h k thiz (ys ++ (p, d) ∷ [])
  Cleared-snoc h g k ys p d r del rest =
      let out : has p ys ≡ false = rw append-nil at ((Distinct-remove p d ys [] r.distinct).1) in
      let ne : p ≢ thiz.head = ground (arith, r.apart, has-insert thiz.head p d ys []) in
      record {
        ring = rest.ring;
        calls_eq =
            rest.calls_eq
            ∙ ap (logged_all thiz.ddfunc (payloads ys)) del.calls_eq
            ∙ sym (payloads-snoc thiz.ddfunc ys p d h.calls);
        freed = λ q i. ground (
          arith,
          has-insert q p d ys [],
          append-nil ys,
          rest.freed q,
          rest.same p ne out,
          del.freed,
        );
        same = λ q qh i.
            ground (arith, has-insert q p d ys [], append-nil ys, rest.same q qh, del.same q qh);
      }

  clear_loop-Cleared :
      (fuel : ℕ) (h : Heap) (xs : Cells)
      → IsRing h thiz.head xs
      → length xs < fuel
      → (g : Heap) × (clear_loop fuel thiz h ≡ some (tt, g)) × Cleared h g thiz xs
  unfolding clear_loop
  clear_loop-Cleared zero h xs r lt = absurd (omega arith)
  clear_loop-Cleared (suc fuel) h xs r lt = elim (snoc_view xs) [
    | inl e ↦
        let r' : IsRing h thiz.head [] = rw e at r in
        let (n, run, k) = load-Tail h thiz.head thiz.head [] (whole-Tail r') in
        (
          h,
          ground arith,
          subst (Cleared h h thiz) (sym e) (record {
            ring = r';
            calls_eq = nothing_logged thiz.ddfunc h.calls;
            freed = λ q i. cc;
            same = λ q qh i. refl;
          }),
        )
    | inr (ys, p, d, e) ↦
        let r' : IsRing h thiz.head (ys ++ (p, d) ∷ []) = rw e at r in
        let shorter : length ys < fuel =
          omega (arith, ap length e, length-append {0} ys ((p, d) ∷ [])) in
        let (n, run, k) = load-Tail h thiz.head thiz.head (ys ++ (p, d) ∷ []) (whole-Tail r') in
        let (g, run', del) = deltail-Deleted h thiz ys p d r' in
        let (g', run'', rest) = clear_loop-Cleared fuel g ys (rw append-nil at del.ring) shorter in
        (
          g',
          ground (arith, first_or-snoc ys p d thiz.head, r'.apart),
          subst (Cleared h g' thiz) (sym e) (Cleared-snoc h g g' ys p d r' del rest),
        )
  ]

  -- `zbaselib_list_clear` empties the list: every node is freed, and each data that is not NULL goes
  -- to the destructor once, if there is one, the last element first. It needs more fuel than elements.
  clear-Cleared :
      (fuel : ℕ) (h : Heap) (xs : Cells)
      → IsRing h thiz.head xs
      → length xs < fuel
      → (g : Heap) × (clear fuel (some thiz) h ≡ some (tt, g)) × Cleared h g thiz xs
  unfolding clear
  clear-Cleared fuel h [] r lt = (
    h,
    ground (arith, empty-is_nil h thiz [] r),
    record {
      ring = r;
      calls_eq = nothing_logged thiz.ddfunc h.calls;
      freed = λ q i. cc;
      same = λ q qh i. refl;
    },
  )
  clear-Cleared fuel h (x ∷ xs) r lt =
      let (g, run, done) = clear_loop-Cleared fuel h (x ∷ xs) r lt in
      (g, ground (arith, empty-is_nil h thiz (x ∷ xs) r), done)

-- What destruction leaves: no node of the ring, the head node included.
pub record Destroyed (h g : Heap) (thiz : Dlist) (xs : Cells) : Type 0 where
  pub head_freed : g.cell thiz.head ≡ none
  pub nodes_freed : (q : Ptr) → has q xs ≡ true → g.cell q ≡ none
  pub all_calls : g.calls ≡ logged_all thiz.ddfunc (payloads xs) h.calls
  pub others : (q : Ptr) → q ≢ thiz.head → has q xs ≡ false → g.cell q ≡ h.cell q

-- `zbaselib_list_destroy` frees every node and the head node, hands each data that is not NULL to the
-- destructor once, if there is one, touches no other node, and leaves NULL in the caller's pointer.
-- It needs more fuel than elements.
pub destroy-Destroyed :
    (thiz : Dlist) (fuel : ℕ) (h : Heap) (xs : Cells)
    → IsRing h thiz.head xs
    → length xs < fuel
    → (g : Heap) × (destroy fuel (some thiz) h ≡ some (none, g)) × Destroyed h g thiz xs
unfolding destroy without
destroy-Destroyed thiz fuel h xs r lt =
    let (g, run, c) = clear-Cleared thiz fuel h xs r lt in
    let (n, e, k) = node_of_next (g.cell thiz.head) c.ring.links.0 in
    (
      without g thiz.head g.calls,
      ground (arith, destroy_node-ok g thiz.head thiz.ddfunc c.ring.head_ne e, c.ring.head_data),
      record {
        head_freed = ground arith;
        nodes_freed = λ q i. ground (arith, c.freed q i);
        all_calls = c.calls_eq;
        others = λ q ne i. ground (arith, c.same q ne i);
      },
    )

-- `zbaselib_list_create` with a fresh head node gives an empty list with the given destructor, and
-- changes no other node.
pub create-IsRing :
    (h : Heap) (fresh : Ptr) (ddfunc : Bool)
    → IsFresh h fresh
    → (thiz : Dlist) × (g : Heap) × (create fresh ddfunc h ≡ some (thiz, g))
      × IsRing g thiz.head []
      × (thiz.ddfunc ≡ ddfunc)
      × (g.calls ≡ h.calls)
      × ((q : Ptr) → q ≢ fresh → g.cell q ≡ h.cell q)
unfolding create created set_next set_prev load modify put_cell create_node calloc set_data
create-IsRing h fresh ddfunc f = (
  record { head = fresh; ddfunc = ddfunc },
  record {
    cell = λ q.
        if q == fresh
        then some (record { prev = fresh; next = fresh; payload = null })
        else h.cell q;
    calls = h.calls;
  },
  ground (arith, f),
  record {
    head_ne = f.new_ne;
    head_data = ground arith;
    links = ground arith;
    apart = refl;
    nonnull = refl;
    distinct = tt;
  },
  refl,
  refl,
  λ q ne. ground arith,
)

-- With no destructor nothing is called.
pub logged_all_none : (ds : List Ptr) (calls : List Event) → logged_all false ds calls ≡ calls
unfolding logged_all
logged_all_none [] calls = refl
logged_all_none (d ∷ ds) calls = ground (arith, logged_all_none ds calls)

-- A walk that calls the destructor on each data, and then the destruction of a list without one.
pub foreach-destroy :
    (list : Dlist) (fuel : ℕ) (h : Heap) (xs : Cells)
    → IsRing h list.head xs
    → length xs < fuel
    → list.ddfunc ≡ false
    → (g : Heap) × ((foreach (λ d. call (destroyed d)) fuel (some list) >>= λ status.
            destroy fuel (some list) >>= λ rest. pure tt)
          h
        ≡ some (tt, g))
      × (g.calls ≡ reverse_aux (map destroyed (payloads xs)) h.calls)
      × (g.cell list.head ≡ none)
      × ((q : Ptr) → has q xs ≡ true → g.cell q ≡ none)
      × ((q : Ptr) → q ≢ list.head → has q xs ≡ false → g.cell q ≡ h.cell q)
foreach-destroy list fuel h xs r lt no_destructor =
    let calls : List Event = reverse_aux (map destroyed (payloads xs)) h.calls in
    let h' : Heap = record h { calls = calls } in
    let (g, run, d) = destroy-Destroyed list fuel h' xs (IsRing-calls h calls list.head xs r) lt in
    (
      g,
      ground (arith, foreach-calls destroyed list fuel h xs r),
      d.all_calls
          ∙ ap (λ b. logged_all b (payloads xs) calls) no_destructor
          ∙ logged_all_none (payloads xs) calls,
      d.head_freed,
      d.nodes_freed,
      d.others,
    )
