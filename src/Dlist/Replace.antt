-- ===== src/Dlist/Replace.antt =====
-- zbaselib_list.c: `zbaselib_list_sethead`, `_settail` and `_set` on a ring.
use zbaselib.Prelude.{
  ℕ, zero, suc, ◌≤◌, ◌≡◌, refl, ◌≢◌, true, false, ◌||◌, none, some, List, [], ◌∷◌, ◌++◌, arith,
  ◌==◌, if◌then◌else◌, ap, ◌∙◌, sym, Bool-cases, inl, inr, length, take, drop, take-append-drop,
}
use zbaselib.Prelude.Int.{pos, negsuc}
use zbaselib.Dlist.Heap.{Ptr, null, Node, Event, Heap, load, modify, set_data, call, update}
use zbaselib.Dlist.Ring.{
  Cells, has, Distinct, IsRing, load-ok, node_of_prev, prev-Linked, Linked-append, append-Linked,
  frame-Linked,
}
use zbaselib.Dlist.Defs.{Dlist, call_ddfunc}
use zbaselib.Dlist.Ops.{replace_data, sethead, settail, set}
use zbaselib.Dlist.Add.{has-append_middle, has-insert}
use zbaselib.Dlist.Unlink.{logged}
use zbaselib.Dlist.Edit.{addr_at_beyond}
use zbaselib.Dlist.Delete.{last_or-snoc, is_nil-snoc}
use zbaselib.Dlist.Walk.{addr_at, whole-Tail, load-Tail, empty-is_nil, get_node-addr_at}

-- What a setter leaves: the ring with the data at `p` replaced, and the old data destroyed.
pub record Replaced (h g : Heap) (thiz : Dlist) (xs : Cells) (p d v : Ptr) (ys : Cells)
    : Type 0 where
  pub ring : IsRing g thiz.head (xs ++ (p, v) ∷ ys)
  pub calls_eq : g.calls ≡ logged thiz.ddfunc d h.calls
  pub same : (q : Ptr) → q ≢ p → g.cell q ≡ h.cell q

-- The heap with the data at `p` replaced.
unfoldable pub replaced : Heap → Ptr → Ptr → List Event → Heap
replaced h p v calls = record {
  cell = λ q. if q == p then update (λ n. record n { payload = v }) (h.cell q) else h.cell q;
  calls = calls;
}

-- The old data can go: it is NULL, or there is a destructor to call.
abbrev pub CanDrop : Dlist → Ptr → Type 0
CanDrop thiz d = (d == null) || thiz.ddfunc ≡ true

replace_data-ok :
    (h : Heap) (thiz : Dlist) (p v : Ptr) {n : Node}
    → p ≢ null
    → h.cell p ≡ some n
    → CanDrop thiz n.payload
    → replace_data thiz p v h ≡ some (tt, replaced h p v (logged thiz.ddfunc n.payload h.calls))
unfolding replace_data load set_data modify call replaced
replace_data-ok h thiz p v {n} ne e can = elim (Bool-cases (n.payload == null)) [
  | inl z ↦ ground arith
  | inr z ↦ ground arith
]

Distinct-middle :
    (xs : Cells) (p d : Ptr) (ys : Cells)
    → Distinct (xs ++ (p, d) ∷ ys)
    → (has p xs ≡ false) × (has p ys ≡ false)
Distinct-middle [] p d ys ds = (refl, ds.0)
Distinct-middle ((q, e) ∷ xs) p d ys ds =
    let (a, b) = Distinct-middle xs p d ys ds.1 in (ground (arith, has-insert q p d xs ys), b)

Distinct-replace :
    (xs : Cells) (p d v : Ptr) (ys : Cells)
    → Distinct (xs ++ (p, d) ∷ ys)
    → Distinct (xs ++ (p, v) ∷ ys)
Distinct-replace [] p d v ys ds = ds
Distinct-replace ((q, e) ∷ xs) p d v ys ds = (
  ground (arith, has-insert q p d xs ys, has-insert q p v xs ys),
  Distinct-replace xs p d v ys ds.1,
)

module _ (h : Heap) (thiz : Dlist) (xs : Cells) (p d v : Ptr) (ys : Cells)
    (r : IsRing h thiz.head (xs ++ (p, d) ∷ ys)) where
  p_facts : (thiz.head ≢ p) × (p ≢ null) × (has p xs ≡ false) × (has p ys ≡ false)
  p_facts = (
    ground (arith, r.apart, has-append_middle thiz.head xs p d ys),
    ground (arith, r.nonnull, has-append_middle null xs p d ys),
    (Distinct-middle xs p d ys r.distinct).0,
    (Distinct-middle xs p d ys r.distinct).1,
  )

  replaced-Replaced :
      (calls : List Event)
      → calls ≡ logged thiz.ddfunc d h.calls
      → Replaced h (replaced h p v calls) thiz xs p d v ys
  unfolding replaced
  replaced-Replaced calls e =
      let (before, at, after) = Linked-append h thiz.head xs p d ys thiz.head r.links in
      let (n, c, k) = node_of_prev (h.cell p) (prev-Linked h thiz.head xs p before) in
      let g : Heap = replaced h p v calls in
      let out = p_facts in
      record {
        ring = record {
          head_ne = r.head_ne;
          head_data = ground (arith, r.head_data);
          links =
              append-Linked g thiz.head xs p v ys thiz.head
                (frame-Linked h g thiz.head xs p before (λ q i. ground arith) (λ q i. ground arith)
                  (λ q i. ground arith))
                (ground arith)
                (frame-Linked h g p ys thiz.head after (λ q i. ground arith) (λ q i. ground arith)
                  (λ q i. ground arith));
          apart =
              ground
                (arith, r.apart, has-insert thiz.head p d xs ys, has-insert thiz.head p v xs ys);
          nonnull = ground (arith, r.nonnull, has-insert null p d xs ys, has-insert null p v xs ys);
          distinct = Distinct-replace xs p d v ys r.distinct;
        };
        calls_eq = e;
        same = λ q ne. ground arith;
      }

  node_here : (n : Node) × (h.cell p ≡ some n) × (n.payload ≡ d)
  node_here =
      let (before, at, after) = Linked-append h thiz.head xs p d ys thiz.head r.links in
      let (n, c, k) = node_of_prev (h.cell p) (prev-Linked h thiz.head xs p before) in
      (n, c, ground arith)

  pub replace_data-Replaced :
      CanDrop thiz d
      → (g : Heap) × (replace_data thiz p v h ≡ some (tt, g)) × Replaced h g thiz xs p d v ys
  replace_data-Replaced can =
      let (n, c, e) = node_here in
      (
        _,
        replace_data-ok h thiz p v p_facts.1 c (ground arith),
        replaced-Replaced (logged thiz.ddfunc n.payload h.calls)
            (ap (λ x. logged thiz.ddfunc x h.calls) e),
      )

  replace_data-faults : d ≢ null → thiz.ddfunc ≡ false → replace_data thiz p v h ≡ none
  unfolding replace_data call_ddfunc
  replace_data-faults ne no_destructor =
      let (n, c, e) = node_here in ground (arith, load-ok h p p_facts.1 c)

addr_at-drop :
    (i : ℕ) (xs : Cells) (p d : Ptr) (zs : Cells) → drop i xs ≡ (p, d) ∷ zs → addr_at xs i ≡ p
addr_at-drop zero [] p d zs e = cc
addr_at-drop (suc i) [] p d zs e = cc
addr_at-drop zero (x ∷ xs) p d zs e = ground arith
addr_at-drop (suc i) (x ∷ xs) p d zs e = addr_at-drop i xs p d zs e

-- The list around an index.
around :
    (i : ℕ) (xs : Cells) (p d : Ptr) (zs : Cells)
    → drop i xs ≡ (p, d) ∷ zs
    → take i xs ++ (p, d) ∷ zs ≡ xs
around i xs p d zs dr = ap (λ z. take i xs ++ z) (sym dr) ∙ take-append-drop i xs

module _ (h : Heap) (thiz : Dlist) (v : Ptr) where
  -- `zbaselib_list_set` at an index within the list, where the old data is NULL or the list has a
  -- destructor, answers 0, destroys the old data and puts the new in its place; no other node changes.
  pub set-Replaced :
      (i : ℕ) (xs : Cells) (p d : Ptr) (zs : Cells)
      → IsRing h thiz.head xs
      → drop i xs ≡ (p, d) ∷ zs
      → CanDrop thiz d
      → (g : Heap) × (set (some thiz) v (pos i) h ≡ some (pos 0, g))
        × Replaced h g thiz (take i xs) p d v zs
  unfolding set
  set-Replaced i xs p d zs r dr can =
      let r' : IsRing h thiz.head (take i xs ++ (p, d) ∷ zs) = rw (around i xs p d zs dr) r in
      let (g, run, done) = replace_data-Replaced h thiz (take i xs) p d v zs r' can in
      (
        g,
        ground (
          arith,
          get_node-addr_at h thiz i xs r,
          addr_at-drop i xs p d zs dr,
          p_facts h thiz (take i xs) p d v zs r',
        ),
        done,
      )

  -- `zbaselib_list_set` on a list without a destructor, at an element whose data is not NULL, calls
  -- through a null function pointer.
  pub set-faults :
      (i : ℕ) (xs : Cells) (p d : Ptr) (zs : Cells)
      → IsRing h thiz.head xs
      → drop i xs ≡ (p, d) ∷ zs
      → d ≢ null
      → thiz.ddfunc ≡ false
      → set (some thiz) v (pos i) h ≡ none
  unfolding set
  set-faults i xs p d zs r dr ne no_destructor =
      let r' : IsRing h thiz.head (take i xs ++ (p, d) ∷ zs) = rw (around i xs p d zs dr) r in
      ground (
        arith,
        get_node-addr_at h thiz i xs r,
        addr_at-drop i xs p d zs dr,
        p_facts h thiz (take i xs) p d v zs r',
        replace_data-faults h thiz (take i xs) p d v zs r' ne no_destructor,
      )

  pub set_beyond :
      (i : ℕ) (xs : Cells)
      → IsRing h thiz.head xs
      → length xs ≤ i
      → set (some thiz) v (pos i) h ≡ some (negsuc 0, h)
  unfolding set
  set_beyond i xs r over = ground (arith, get_node-addr_at h thiz i xs r, addr_at_beyond i xs)

  pub sethead-Replaced :
      (p d : Ptr) (xs : Cells)
      → IsRing h thiz.head ((p, d) ∷ xs)
      → CanDrop thiz d
      → (g : Heap) × (sethead (some thiz) v h ≡ some (tt, g)) × Replaced h g thiz [] p d v xs
  unfolding sethead
  sethead-Replaced p d xs r can =
      let (n, e, k) = load-Tail h thiz.head thiz.head ((p, d) ∷ xs) (whole-Tail r) in
      let (g, run, done) = replace_data-Replaced h thiz [] p d v xs r can in
      (g, ground (arith, empty-is_nil h thiz ((p, d) ∷ xs) r), done)

  pub settail-Replaced :
      (xs : Cells) (p d : Ptr)
      → IsRing h thiz.head (xs ++ (p, d) ∷ [])
      → CanDrop thiz d
      → (g : Heap) × (settail (some thiz) v h ≡ some (tt, g)) × Replaced h g thiz xs p d v []
  unfolding settail
  settail-Replaced xs p d r can =
      let all : Cells = xs ++ (p, d) ∷ [] in
      let (n, e, k) =
        node_of_prev (h.cell thiz.head) (prev-Linked h thiz.head all thiz.head r.links) in
      let (g, run, done) = replace_data-Replaced h thiz xs p d v [] r can in
      (
        g,
        ground (
          arith,
          load-ok h thiz.head r.head_ne e,
          last_or-snoc xs p d thiz.head,
          is_nil-snoc xs (p, d),
          empty-is_nil h thiz all r,
        ),
        done,
      )
