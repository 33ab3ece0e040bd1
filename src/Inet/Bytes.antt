-- ===== src/Inet/Bytes.antt =====
-- Lists of bytes, for the addresses of zbaselib_socket.c.
use zbaselib.Prelude.{
  ℕ, zero, suc, ◌+◌, ◌<◌, ◌≡◌, some, List, [], ◌∷◌, ◌++◌, length, take, drop, get_elem?, arith,
  refl,
}
use zbaselib.Prelude.Block.{splice}
use zbaselib.Prelude.Lists.{replicate}

abbrev pub AllBytes : List ℕ → Type 0
AllBytes [] = Unit
AllBytes (v ∷ vs) = (v < 256) × AllBytes vs

pub AllBytes-append : (s t : List ℕ) → AllBytes s → AllBytes t → AllBytes (s ++ t)
AllBytes-append [] t hs ht = ht
AllBytes-append (v ∷ s) t (h, hs) ht = (h, AllBytes-append s t hs ht)

AllBytes-take : (n : ℕ) (s : List ℕ) → AllBytes s → AllBytes (take n s)
AllBytes-take zero s h = tt
AllBytes-take (suc n) [] h = tt
AllBytes-take (suc n) (v ∷ s) (b, h) = (b, AllBytes-take n s h)

pub AllBytes-drop : (n : ℕ) (s : List ℕ) → AllBytes s → AllBytes (drop n s)
AllBytes-drop zero s h = h
AllBytes-drop (suc n) [] h = tt
AllBytes-drop (suc n) (v ∷ s) (b, h) = AllBytes-drop n s h

pub AllBytes-replicate : (n : ℕ) → AllBytes (replicate n 0)
unfolding replicate
AllBytes-replicate zero = tt
AllBytes-replicate (suc n) = (omega arith, AllBytes-replicate n)

pub AllBytes-splice :
    (s : List ℕ) (off : ℕ) (xs : List ℕ) → AllBytes s → AllBytes xs → AllBytes (splice s off xs)
unfolding splice
AllBytes-splice s off xs hs hx =
    AllBytes-append (take off s) (xs ++ drop (off + length xs) s) (AllBytes-take off s hs)
      (AllBytes-append xs (drop (off + length xs) s) hx (AllBytes-drop (off + length xs) s hs))

pub AllBytes-get_elem? :
    (s : List ℕ) (i : ℕ)
    → AllBytes s
    → i < length s
    → (x : ℕ) × (get_elem? s i ≡ some x) × (x < 256)
AllBytes-get_elem? [] i h lt = absurd (omega arith)
AllBytes-get_elem? (v ∷ s) zero (b, h) lt = (v, refl, b)
AllBytes-get_elem? (v ∷ s) (suc i) (b, h) lt = AllBytes-get_elem? s i h (omega arith)
