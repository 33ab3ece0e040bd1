-- ===== src/Buffer/Fifo.antt =====
-- What a byte ring of capacity `cap` promises: a queue of bytes, oldest first, that takes or gives
-- a run of bytes whole or not at all.
use zbaselib.Prelude.{ℕ, ◌+◌, List, ◌++◌, leb, if◌then◌else◌, length, take, drop}
use zbaselib.Prelude.Int.{ℤ}
use zbaselib.Buffer.Defs.{done, out_of_range}

unfoldable pub put : ℕ → List ℕ → List ℕ → ℤ × List ℕ
put cap q xs = if leb (length q + length xs) cap then (done, q ++ xs) else (out_of_range, q)

-- `n` bytes from the front go over the front of `rdata`.
unfoldable pub take_out : List ℕ → List ℕ → ℕ → ℤ × List ℕ × List ℕ
take_out q rdata n =
    if leb n (length q)
    then (done, take n q ++ drop n rdata, drop n q)
    else (out_of_range, rdata, q)

unfoldable pub discard : List ℕ → ℕ → ℤ × List ℕ
discard q n = if leb n (length q) then (done, drop n q) else (out_of_range, q)
