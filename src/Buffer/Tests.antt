-- ===== src/Buffer/Tests.antt =====
-- Runs of the byte ring on a block of four bytes, two of them held across the end of the block.
use zbaselib.Prelude.{
  ℕ, zero, suc, ◌≡◌, refl, none, some, [], ◌∷◌, arith, length-replicate, replicate,
}
use zbaselib.Prelude.Int.{ℤ, pos}
use zbaselib.Prelude.Window.{window}
use zbaselib.Mutex.Laws.{IsBalanced}
use zbaselib.Buffer.Defs.{Buffer, write, read, get}
use zbaselib.Buffer.Fifo.{put, take_out}
use zbaselib.Buffer.Inv.{IsValid, contents, Served, ServedRead}
use zbaselib.Buffer.Write.{write-put}
use zbaselib.Buffer.Read.{read-take_out, get-take_out}
use zbaselib.Buffer.Wrap.{IsPlaced, write-wraps}

-- A mutex as the number of its holders.
abbrev lock : ℕ → ℤ × ℕ
lock m = (pos 0, suc m)

abbrev unlock : ℕ → ℤ × ℕ
unlock zero = (pos 1, zero)
unlock (suc m) = (pos 0, m)

balanced : IsBalanced lock unlock
balanced m = refl

abbrev ring : Buffer ℕ
ring = record {
  buffer = some (1 ∷ 2 ∷ 3 ∷ 4 ∷ []);
  buffer_size = 4;
  wpos = 1;
  rpos = 3;
  busy_num = 2;
  mutex = some 0;
  islock = pos 1;
}

ring-IsValid : IsValid ring
ring-IsValid = record {
  allocated = refl;
  block_size = refl;
  small = omega arith;
  rpos_in = omega arith;
  busy_in = omega arith;
  wpos_behind = refl;
}

write-put_example :
    Served ring (pos 0) (4 ∷ 1 ∷ 9 ∷ 8 ∷ []) (write lock unlock (some ring) (some (9 ∷ 8 ∷ [])) 2)
unfolding put contents window
write-put_example =
    write-put lock unlock ring (9 ∷ 8 ∷ []) 2 balanced ring-IsValid (omega arith) (omega arith)

read-take_out_example :
    ServedRead ring
      (pos 0)
      []
      (4 ∷ 1 ∷ 0 ∷ [])
      (read lock unlock (some ring) (some (0 ∷ 0 ∷ 0 ∷ [])) 2)
unfolding take_out contents window
read-take_out_example =
    read-take_out lock unlock ring (0 ∷ 0 ∷ 0 ∷ []) 2 balanced ring-IsValid (omega arith)
      (omega arith)

get-take_out_example :
    get lock unlock (some ring) (some (0 ∷ 0 ∷ [])) 1 ≡ some (pos 0, some (4 ∷ 0 ∷ []), some ring)
unfolding take_out contents window
get-take_out_example =
    get-take_out lock unlock ring (0 ∷ 0 ∷ []) 1 balanced ring-IsValid (omega arith) (omega arith)

-- A ring of 2^31 + 1 bytes, all free, to be written from its last byte on.
abbrev huge : Buffer ℕ
huge = record {
  buffer = some (replicate 2147483649 0);
  buffer_size = 2147483649;
  wpos = 2147483648;
  rpos = 2147483648;
  busy_num = 0;
  mutex = none;
  islock = pos 0;
}

huge-IsPlaced : IsPlaced huge
huge-IsPlaced = record {
  allocated = refl;
  block_size = length-replicate 2147483649 (let z : ℕ = 0 in z);
  size_in = omega arith;
  wpos_in = omega arith;
  busy_in = omega arith;
}

write-wraps_example :
    write lock unlock (some huge) (some (replicate 2147483648 1)) 2147483648 ≡ none
write-wraps_example =
    write-wraps lock unlock huge (replicate 2147483648 1) 2147483648 huge-IsPlaced
      (omega (arith, length-replicate 2147483648 (let z : ℕ = 1 in z))) (omega arith) (omega arith)
