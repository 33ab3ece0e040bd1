-- ===== src/Dlist/Edit.antt =====
-- zbaselib_list.c: `zbaselib_list_add` at an index of a ring.
use native.Mathlib.Decide.{ℕ_discrete}
use zbaselib.Prelude.{
  ◌^◌, ℕ, zero, suc, ◌≤◌, ◌<◌, ◌≡◌, refl, ◌≢◌, false, some, [], ◌∷◌, ◌++◌, arith, ap, ◌∙◌, sym,
  subst, length, take, drop, take-append-drop, take_all, drop_all,
}
use zbaselib.Prelude.Int.{pos, negsuc}
use zbaselib.Dlist.Heap.{Ptr, null, Heap}
use zbaselib.Dlist.Ring.{Cells, IsRing, node_of_prev}
use zbaselib.Dlist.Defs.{Dlist, add_before, add}
use zbaselib.Dlist.Link.{create_node-ok}
use zbaselib.Dlist.Add.{
  Added, has-append_middle, IsFresh, addhead-Added, addtail-Added, inserted-Added, load-created,
  add_node-created, middle-Linked,
}
use zbaselib.Dlist.Walk.{
  addr_at, is_nil, whole-Tail, size_loop-length, empty-is_nil, get_node-addr_at,
}

-- The element at an index within the list.
pub split_at :
    (i : ℕ) (xs : Cells)
    → i < length xs
    → (p : Ptr) × (d : Ptr) × (zs : Cells) × (drop i xs ≡ (p, d) ∷ zs)
      × (addr_at xs i ≡ p)
      × (drop (suc i) xs ≡ zs)
split_at i [] h = absurd (omega arith)
split_at zero ((p, d) ∷ xs) h = (p, d, xs, refl, refl, refl)
split_at (suc i) (x ∷ xs) h = split_at i xs (omega arith)

pub is_nil_of_pos : (xs : Cells) → 0 < length xs → is_nil xs ≡ false
is_nil_of_pos [] h = absurd (omega arith)
is_nil_of_pos (x ∷ xs) h = refl

pub addr_at_beyond : (i : ℕ) (xs : Cells) → length xs ≤ i → addr_at xs i ≡ null
addr_at_beyond i [] h = refl
addr_at_beyond zero (x ∷ xs) h = absurd (omega arith)
addr_at_beyond (suc i) (x ∷ xs) h = addr_at_beyond i xs (omega arith)

module _ (h : Heap) (thiz : Dlist) (new d : Ptr) (fresh : IsFresh h new) where
  add_before-Added :
      (xs : Cells) (p e : Ptr) (zs : Cells)
      → IsRing h thiz.head (xs ++ (p, e) ∷ zs)
      → (g : Heap) × (add_before new thiz d p h ≡ some (pos 0, g))
        × Added h g thiz.head xs ((p, e) ∷ zs) new d
  unfolding add_before
  add_before-Added xs p e zs r =
      let (n, c, k) =
        node_of_prev (h.cell p) (middle-Linked h thiz.head xs ((p, e) ∷ zs) thiz.head r.links).1 in
      let ne : p ≢ null = ground (arith, r.nonnull, has-append_middle null xs p e zs) in
      (
        _,
        ground (
          arith,
          create_node-ok h new d fresh.new_ne,
          load-created h thiz.head xs ((p, e) ∷ zs) new d r fresh p ne c,
          add_node-created h thiz.head xs ((p, e) ∷ zs) new d r fresh,
        ),
        inserted-Added h thiz.head xs ((p, e) ∷ zs) new d r fresh,
      )

  add_inside :
      (fuel i : ℕ) (xs : Cells)
      → IsRing h thiz.head xs
      → length xs < fuel
      → length xs < 2 ^ 31
      → i < length xs
      → (g : Heap) × (add new fuel (some thiz) d (pos i) h ≡ some (pos 0, g))
        × Added h g thiz.head (take i xs) (drop i xs) new d
  unfolding add
  add_inside fuel i xs r lt small inside =
      let (p, e, zs, dr, at, _) = split_at i xs inside in
      let whole : take i xs ++ (p, e) ∷ zs ≡ xs =
        ap (λ z. take i xs ++ z) (sym dr) ∙ take-append-drop i xs in
      let (g, run, a) = add_before-Added (take i xs) p e zs (rw whole r) in
      (
        g,
        ground (
          arith,
          empty-is_nil h thiz xs r,
          size_loop-length h thiz fuel thiz.head xs 0 (whole-Tail r),
          get_node-addr_at h thiz i xs r,
          is_nil_of_pos xs,
        ),
        subst (λ z. Added h g thiz.head (take i xs) z new d) (sym dr) a,
      )

  -- `zbaselib_list_add` to a list of fewer than 2^31 elements, at an index up to the length, puts the new
  -- element there, in a node at an address that is not NULL and not in use; no node outside the ring changes but
  -- the new one. It needs more fuel than elements.
  pub add-Added :
      (fuel i : ℕ) (xs : Cells)
      → IsRing h thiz.head xs
      → length xs < fuel
      → length xs < 2 ^ 31
      → i ≤ length xs
      → (g : Heap) × (add new fuel (some thiz) d (pos i) h ≡ some (pos 0, g))
        × Added h g thiz.head (take i xs) (drop i xs) new d
  unfolding add
  add-Added fuel zero [] r lt small le =
      let (g, run, a) = addhead-Added h thiz [] new d r fresh in
      (g, ground (arith, empty-is_nil h thiz [] r), a)
  add-Added fuel (suc i) [] r lt small le = absurd (omega arith)
  add-Added fuel i (x ∷ xs) r lt small le =
      let all : Cells = x ∷ xs in
      elim (ℕ_discrete i (length all)) [
        | yes e ↦
            let (g, run, a) = addtail-Added h thiz all new d r fresh in
            (
              g,
              ground (
                arith,
                empty-is_nil h thiz all r,
                size_loop-length h thiz fuel thiz.head all 0 (whole-Tail r),
              ),
              rw (take_all i all (omega arith), drop_all i all (omega arith)) a,
            )
        | no ne ↦ add_inside fuel i all r lt small (omega arith)
      ]

  pub add_beyond :
      (fuel i : ℕ) (xs : Cells)
      → IsRing h thiz.head xs
      → length xs < fuel
      → length xs < 2 ^ 31
      → length xs < i
      → add new fuel (some thiz) d (pos i) h ≡ some (negsuc 0, h)
  unfolding add add_before
  add_beyond fuel i xs r lt small over = ground (
    arith,
    empty-is_nil h thiz xs r,
    size_loop-length h thiz fuel thiz.head xs 0 (whole-Tail r),
    get_node-addr_at h thiz i xs r,
    addr_at_beyond i xs,
  )
