-- ===== src/Socket/Laws.antt =====
-- zbaselib_socket.c: the loop over `send` hands over all of its bytes, or the front of them.
use zbaselib.Prelude.{
  ℕ, zero, suc, ◌+◌, ◌-◌, ◌^◌, ◌≤◌, ◌<◌, ◌≡◌, refl, Bool, true, false, some, List, [], ◌∷◌, ◌++◌,
  arith, length, take, drop, length-drop, take-append-drop, take-nil, append-nil, append_assoc, ap,
  ◌∙◌, sym, inl, inr, ◌⊎◌,
}
use zbaselib.Prelude.Int.{pos, negsuc, signed32}
use zbaselib.Socket.Defs.{SendAnswer, wrote, refused, Sent, sendn, sendn_loop}

-- The bytes that the answers take until the connection breaks.
unfoldable pub taken : List SendAnswer → ℕ
taken [] = 0
taken (wrote n ∷ answers) = n + taken answers
taken (refused true ∷ answers) = taken answers
taken (refused false ∷ answers) = 0

unfoldable pub breaks : List SendAnswer → Bool
breaks [] = false
breaks (wrote n ∷ answers) = breaks answers
breaks (refused true ∷ answers) = breaks answers
breaks (refused false ∷ answers) = true

pub take_add :
    {A : Type 0} (m n : ℕ) (xs : List A) → take m xs ++ take n (drop m xs) ≡ take (m + n) xs
take_add zero n xs = rw (let e : zero + n ≡ n = omega arith in e) refl
take_add (suc m) n [] = sym (take-nil n) ∙ take-nil (suc m + n)
take_add (suc m) n (x ∷ xs) =
    rw (let e : suc m + n ≡ suc (m + n) = omega arith in e) (ap (λ r. x ∷ r) (take_add m n xs))

-- With enough answers the loop ends with all bytes handed over.
sendn_loop-all :
    (answers : List SendAnswer) (size : ℕ) (ptr : List ℕ) (nleft : ℕ) (handed : List ℕ)
    → length ptr ≡ nleft
    → nleft ≤ taken answers
    → (s : Sent) × (sendn_loop answers size ptr nleft handed ≡ some s)
      × (s.result ≡ signed32 size)
      × (s.handed ≡ handed ++ ptr)
unfolding sendn_loop taken
sendn_loop-all answers size [] zero handed e h = (_, refl, refl, sym (append-nil handed))
sendn_loop-all answers size (x ∷ ptr) zero handed e h = absurd (omega arith)
sendn_loop-all [] size ptr (suc nleft) handed e h = absurd (omega arith)
sendn_loop-all (wrote n ∷ answers) size ptr (suc nleft) handed e h =
    let (s, run, r, d) =
      sendn_loop-all answers size (drop n ptr) (suc nleft - n) (handed ++ take n ptr)
        (omega (arith, length-drop n ptr)) (omega arith) in
    (
      s,
      run,
      r,
      d
          ∙ append_assoc handed (take n ptr) (drop n ptr)
          ∙ ap (λ z. handed ++ z) (take-append-drop n ptr),
    )
sendn_loop-all (refused true ∷ answers) size ptr (suc nleft) handed e h =
    sendn_loop-all answers size ptr (suc nleft) handed e h
sendn_loop-all (refused false ∷ answers) size ptr (suc nleft) handed e h = absurd (omega arith)

-- Where the connection breaks first the loop ends with -1, and the bytes taken until then handed over.
sendn_loop-front :
    (answers : List SendAnswer) (size : ℕ) (ptr : List ℕ) (nleft : ℕ) (handed : List ℕ)
    → taken answers < nleft
    → breaks answers ≡ true
    → (s : Sent) × (sendn_loop answers size ptr nleft handed ≡ some s)
      × (s.result ≡ negsuc 0)
      × (s.handed ≡ handed ++ take (taken answers) ptr)
unfolding sendn_loop taken breaks
sendn_loop-front answers size ptr zero handed lt b = absurd (omega arith)
sendn_loop-front [] size ptr (suc nleft) handed lt b = cc
sendn_loop-front (wrote n ∷ answers) size ptr (suc nleft) handed lt b =
    let (s, run, r, d) =
      sendn_loop-front answers size (drop n ptr) (suc nleft - n) (handed ++ take n ptr)
        (omega arith) b in
    (
      s,
      run,
      r,
      d
          ∙ append_assoc handed (take n ptr) (take (taken answers) (drop n ptr))
          ∙ ap (λ z. handed ++ z) (take_add n (taken answers) ptr),
    )
sendn_loop-front (refused true ∷ answers) size ptr (suc nleft) handed lt b =
    sendn_loop-front answers size ptr (suc nleft) handed lt b
sendn_loop-front (refused false ∷ answers) size ptr (suc nleft) handed lt b =
    (_, refl, refl, sym (append-nil handed))

-- `zbaselib_socket_sendn` of fewer than 2^31 bytes, whatever pauses and short writes there are, hands
-- all of them to the system in order and returns their number, if the system takes that many in the
-- end; if the connection breaks before, it returns -1, and what was handed over is the front of them.
pub sendn-handed :
    (answers : List SendAnswer) (buf : List ℕ)
    → length buf < 2 ^ 31
    → (length buf ≤ taken answers) ⊎ ((taken answers < length buf) × (breaks answers ≡ true))
    → (s : Sent) × (sendn answers buf (length buf) ≡ some s)
      × (((length buf ≤ taken answers) × (s.result ≡ pos (length buf)) × (s.handed ≡ buf))
          ⊎ ((taken answers < length buf)
              × (s.result ≡ negsuc 0)
              × (s.handed ≡ take (taken answers) buf)))
unfolding sendn
sendn-handed answers buf small (inl enough) =
    let (s, run, r, d) = sendn_loop-all answers (length buf) buf (length buf) [] refl enough in
    (s, ground arith, inl (enough, ground arith, d))
sendn-handed answers buf small (inr (short, broken)) =
    let (s, run, r, d) = sendn_loop-front answers (length buf) buf (length buf) [] short broken in
    (s, ground arith, inr (short, r, d))
