-- ===== src/Inet/V6/Ends.antt =====
-- zbaselib_socket.c: the ends of `inet_pton6`, and the whole call.
use zbaselib.Prelude.{
  ℕ, zero, suc, ◌+◌, ◌-◌, ◌≤◌, ◌<◌, ◌≡◌, refl, sym, subst, Option, none, some, List, [], ◌∷◌, ◌==◌,
  ltb, if◌then◌else◌, length, length-replicate, arith,
}
use zbaselib.Inet.Bytes.{AllBytes, AllBytes-replicate, AllBytes-get_elem?}
use zbaselib.Inet.V6.Read.{
  accepted, refused, fault, Pton6, Round, next, broken, over, pton6_loop, shift, pton6_colons,
  pton6_end, pton6_start, pton6_run, pton6,
}
use zbaselib.Inet.V6.Bounds.{
  IsServed, refuses, accepts, Inside, RoundInside, goes_on, breaks, ends, stored, put_val-Inside,
  by_test, loop-Inside,
}

-- The shift, with at most `n` bytes from `c` on in front of the free end.
shift_in :
    (left i c n : ℕ) (tmp : List ℕ)
    → length tmp ≡ 16
    → AllBytes tmp
    → 0 < i
    → left + i ≡ suc n
    → c + n ≤ 16
    → (tmp' : List ℕ) × (shift left i c n tmp ≡ some tmp') × (length tmp' ≡ 16) × AllBytes tmp'
unfolding shift
shift_in zero i c n tmp len all pos_i e fits = (tmp, refl, len, all)
shift_in (suc left) i c n tmp len all pos_i e fits =
    let (x, got, byte) = AllBytes-get_elem? tmp (c + n - i) all (omega arith) in
    let (tmp1, run1, len1, all1) = stored tmp (16 - i) (x ∷ []) len all (byte, tt) (omega arith) in
    let (tmp2, run2, len2, all2) =
      stored tmp1 (c + n - i) (0 ∷ []) len1 all1 (omega arith, tt) (omega arith) in
    let (tmp', run, len', all') =
      shift_in left (i + 1) c n tmp2 len2 all2 (omega arith) (omega arith) fits in
    (tmp', ground (arith, got, run1, run2, run), len', all')

colons-IsServed : (s : Pton6) → Inside s → IsServed (pton6_colons s)
unfolding pton6_colons
colons-IsServed s inv = by_colonp s.colonp refl
  where
    by_colonp :
        (o : Option ℕ)
        → s.colonp ≡ o
        → IsServed (elim o [
          | none ↦ if s.tp == 16 then accepted s.tmp else refused
          | some c ↦ if s.tp == 16 then refused else (elim (shift (s.tp - c) 1 c (s.tp - c) s.tmp) [
            | none ↦ fault
            | some tmp' ↦ accepted tmp'
          ])
        ])
    by_colonp none e =
        by_test IsServed (s.tp == 16) _ _ (λ h. accepts inv.whole inv.bytes) (λ h. refuses)
    by_colonp (some c) e =
        by_test IsServed (s.tp == 16) _ _ (λ h. refuses)
          λ h.
            let (tmp', run, len, all) =
              shift_in (s.tp - c) 1 c (s.tp - c) s.tmp inv.whole inv.bytes (omega arith)
                (omega arith) (omega (arith, inv.colon_in c e, inv.tp_in)) in
            subst (λ o. IsServed (elim o [ none ↦ fault | some tmp' ↦ accepted tmp' ])) (sym run)
              (accepts len all)

end-IsServed : (s : Pton6) → Inside s → IsServed (pton6_end s)
unfolding pton6_end
end-IsServed s inv =
    by_test IsServed (s.seen_xdigits == 0) _ _ (λ h. colons-IsServed s inv)
      λ h.
        by_test IsServed (ltb 16 (s.tp + 2)) _ _ (λ h'. refuses)
          λ h'.
            let (s', run, inv') = put_val-Inside s inv (ground arith) in
            subst (λ o. IsServed (elim o [ none ↦ fault | some s' ↦ pton6_colons s' ])) (sym run)
              (colons-IsServed s' inv')

run-IsServed : (src : List ℕ) → IsServed (pton6_run src)
unfolding pton6_run pton6_start
run-IsServed src = by_round (pton6_loop src (pton6_start src)) (
    loop-Inside src (pton6_start src) (record {
      whole = length-replicate {A = ℕ} 16 0;
      bytes = AllBytes-replicate 16;
      tp_in = omega arith;
      colon_in = λ c e. ground (arith, e);
    }))
  where
    by_round :
        (r : Round)
        → RoundInside r
        → IsServed (elim r [ next s ↦ pton6_end s | broken s ↦ pton6_end s | over answer ↦ answer ])
    by_round (next s) (goes_on inv) = end-IsServed s inv
    by_round (broken s) (breaks inv) = end-IsServed s inv
    by_round (over answer) (ends served) = served

-- Whatever the text is, `inet_pton6` makes no store outside of its 16 bytes, and ends with a refusal or
-- with 16 bytes.
pub pton6-IsServed : (src : List ℕ) → IsServed (pton6 src)
unfolding pton6
pton6-IsServed [] = run-IsServed []
pton6-IsServed (c ∷ []) = by_test IsServed (c == 58) _ _ (λ h. refuses) (λ h. run-IsServed (c ∷ []))
pton6-IsServed (c ∷ c' ∷ src) =
    by_test IsServed (c == 58) _ _
      (λ h. by_test IsServed (c' == 58) _ _ (λ h'. run-IsServed (c' ∷ src)) (λ h'. refuses))
      (λ h. run-IsServed (c ∷ c' ∷ src))
