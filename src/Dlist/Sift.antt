-- ===== src/Dlist/Sift.antt =====
-- zbaselib_list.c: `zbaselib_list_del_use_cond` takes out the elements that the callback accepts.
use zbaselib.Prelude.{
  ℕ, zero, suc, ◌+◌, ◌^◌, ◌<◌, ◌≡◌, refl, ◌≢◌, Bool, true, false, none, some, List, [], ◌∷◌, ◌++◌,
  arith, if◌then◌else◌, Bool-cases, inl, inr, length, append_assoc,
}
use zbaselib.Prelude.Int.{pos}
use zbaselib.Dlist.Heap.{Ptr, null, Event, Heap}
use zbaselib.Dlist.Ring.{Cells, has, first_or, last_or, IsRing, node_of_next, load-ok}
use zbaselib.Dlist.Defs.{Dlist}
use zbaselib.Dlist.Ops.{del_cond_loop, del_use_cond}
use zbaselib.Dlist.Insert.{has-last_or}
use zbaselib.Dlist.Add.{has-insert, middle-Linked, has-append_middle}
use zbaselib.Dlist.Unlink.{logged, Distinct-remove}
use zbaselib.Dlist.Remove.{Deleted, remove_node-ok, unlinked-Deleted, unlinked, node_at}
use zbaselib.Dlist.Delete.{last_or-snoc}
use zbaselib.Dlist.Walk.{empty-is_nil}

module _ (cmp : Ptr → Bool) where
  -- The elements that stay.
  unfoldable pub rejected : Cells → Cells
  rejected [] = []
  rejected ((p, d) ∷ xs) = if cmp d then rejected xs else (p, d) ∷ rejected xs

  unfoldable pub hits : Cells → ℕ
  hits [] = 0
  hits ((p, d) ∷ xs) = if cmp d then suc (hits xs) else hits xs

  -- The calls after the accepted elements are destroyed in order.
  unfoldable pub logged_hits : Bool → Cells → List Event → List Event
  logged_hits ddfunc [] calls = calls
  logged_hits ddfunc ((p, d) ∷ xs) calls =
      logged_hits ddfunc xs (if cmp d then logged ddfunc d calls else calls)

  -- What the deletion leaves of a ring `xs ++ ys` whose part `ys` was searched.
  pub record Sifted (h g : Heap) (thiz : Dlist) (xs ys : Cells) : Type 0 where
    pub ring : IsRing g thiz.head (xs ++ rejected ys)
    pub calls_eq : g.calls ≡ logged_hits thiz.ddfunc ys h.calls
    pub freed : (q : Ptr) → has q ys ≡ true → has q (rejected ys) ≡ false → g.cell q ≡ none
    pub same : (q : Ptr) → q ≢ thiz.head → has q (xs ++ ys) ≡ false → g.cell q ≡ h.cell q

  module _ (thiz : Dlist) where
    del_cond_loop-Sifted :
        (fuel : ℕ) (h : Heap) (xs ys : Cells) (k : ℕ)
        → IsRing h thiz.head (xs ++ ys)
        → length ys < fuel
        → k + length ys < 2 ^ 31
        → (g : Heap) × (del_cond_loop cmp fuel thiz (last_or xs thiz.head) k h
            ≡ some (k + hits ys, g))
          × Sifted h g thiz xs ys
    unfolding del_cond_loop hits logged_hits rejected
    del_cond_loop-Sifted zero h xs ys k r lt small = absurd (omega arith)
    del_cond_loop-Sifted (suc fuel) h xs [] k r lt small =
        let (n, c, e) =
          node_of_next (h.cell (last_or xs thiz.head))
            (middle-Linked h thiz.head xs [] thiz.head r.links).0 in
        let ne : last_or xs thiz.head ≢ null =
          ground (arith, r.head_ne, r.nonnull, has-last_or thiz.head xs []) in
        (
          h,
          ground (arith, load-ok h (last_or xs thiz.head) ne c),
          record { ring = r; calls_eq = refl; freed = λ q i. cc; same = λ q qh i. refl },
        )
    del_cond_loop-Sifted (suc fuel) h xs ((p, d) ∷ ys) k r lt small =
        let (n, c, e) =
          node_of_next (h.cell (last_or xs thiz.head))
            (middle-Linked h thiz.head xs ((p, d) ∷ ys) thiz.head r.links).0 in
        let ne : last_or xs thiz.head ≢ null =
          ground (arith, r.head_ne, r.nonnull, has-last_or thiz.head xs ((p, d) ∷ ys)) in
        let (m, f, e1, e2, e3) = node_at h thiz xs ys p d r in
        let pn : p ≢ null = ground (arith, r.nonnull, has-append_middle null xs p d ys) in
        let ph : thiz.head ≢ p = has-append_middle thiz.head xs p d ys r.apart in
        elim (Bool-cases (cmp d)) [
          | inl hit ↦
              let g : Heap =
                unlinked h p (last_or xs thiz.head) (first_or ys thiz.head)
                  (logged thiz.ddfunc d h.calls) in
              let del : Deleted h g thiz xs ys p d = unlinked-Deleted h thiz xs ys p d r in
              let (k', run, s) =
                del_cond_loop-Sifted fuel g xs ys (k + 1) del.ring (omega arith) (omega arith) in
              let out : has p (xs ++ ys) ≡ false = (Distinct-remove p d xs ys r.distinct).1 in
              (
                k',
                ground (
                  arith,
                  load-ok h (last_or xs thiz.head) ne c,
                  load-ok h p pn f,
                  remove_node-ok h thiz xs ys p d r,
                ),
                record {
                  ring = ground (arith, s.ring);
                  calls_eq = ground (arith, s.calls_eq, del.calls_eq);
                  freed = λ q i j. ground (arith, s.freed q, s.same p, del.freed);
                  same =
                      λ q qh i. ground (arith, s.same q qh, del.same q qh, has-insert q p d xs ys);
                },
              )
          | inr miss ↦
              let xs' : Cells = xs ++ (p, d) ∷ [] in
              let r' : IsRing h thiz.head (xs' ++ ys) = rw (append_assoc xs ((p, d) ∷ []) ys) r in
              let (g, run, s) =
                del_cond_loop-Sifted fuel h xs' ys k r' (omega arith) (omega arith) in
              let here : last_or xs' thiz.head ≡ p = last_or-snoc xs p d thiz.head in
              (
                g,
                ground (arith, load-ok h (last_or xs thiz.head) ne c, load-ok h p pn f),
                record {
                  ring = ground (arith, s.ring, append_assoc xs ((p, d) ∷ []) (rejected ys));
                  calls_eq = ground (arith, s.calls_eq);
                  freed = λ q i j. ground (arith, s.freed q);
                  same = λ q qh i. ground (arith, s.same q qh, append_assoc xs ((p, d) ∷ []) ys);
                },
              )
        ]

    -- `zbaselib_list_del_use_cond` on a list of 1 to 2^31 - 1 elements takes out exactly the elements that
    -- `cmp` accepts, keeps the others in order, answers how many went, frees their nodes and hands
    -- their data that is not NULL to the destructor, if there is one, in order; no node outside the
    -- ring changes. It needs more fuel than elements.
    pub del_use_cond-Sifted :
        (fuel : ℕ) (h : Heap) (xs : Cells)
        → IsRing h thiz.head xs
        → length xs < fuel
        → length xs < 2 ^ 31
        → xs ≢ []
        → (g : Heap) × (del_use_cond cmp fuel (some thiz) h ≡ some (pos (hits xs), g))
          × Sifted h g thiz [] xs
    unfolding del_use_cond
    del_use_cond-Sifted fuel h [] r lt small ne = absurd (ne refl)
    del_use_cond-Sifted fuel h (x ∷ xs) r lt small ne =
        let (g, run, s) = del_cond_loop-Sifted fuel h [] (x ∷ xs) 0 r lt (omega (arith, small)) in
        (g, ground (arith, empty-is_nil h thiz (x ∷ xs) r), s)
