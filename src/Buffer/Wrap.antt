-- ===== src/Buffer/Wrap.antt =====
-- zbaselib_buffer.c: what a ring of more than 2^31 bytes does, where `wpos + data_len` can wrap.
use zbaselib.Prelude.{ℕ, ◌+◌, ◌-◌, ◌^◌, ◌≤◌, ◌<◌, ◌≡◌, none, some, List, arith, length, length-take}
use zbaselib.Prelude.Int.{ℤ}
use zbaselib.Prelude.Block.{read_at-ok, write_at}
use zbaselib.Buffer.Defs.{Buffer, write_copy, write_locked, write_checked, write}
use zbaselib.Buffer.Inv.{block_or_nil}
use zbaselib.Buffer.Lock.{zbuffer_lock-mutex}

-- The positions of a ring of any size below 2^32.
pub record IsPlaced {M : Type 0} (b : Buffer M) : Type 0 where
  pub allocated : b.buffer ≡ some (block_or_nil b.buffer)
  pub block_size : length (block_or_nil b.buffer) ≡ b.buffer_size
  pub size_in : b.buffer_size < 2 ^ 32
  pub wpos_in : b.wpos < b.buffer_size
  pub busy_in : b.busy_num ≤ b.buffer_size

-- In a ring whose positions are in range, a write that fits the free room but ends at 2^32 or more,
-- counted from the start of the block, is a fault: the sum wraps, so that the code copies once and
-- stores outside the block.
pub write-wraps :
    {M : Type 0} (lock unlock : M → ℤ × M) (b : Buffer M) (wdata : List ℕ) (n : ℕ)
    → IsPlaced b
    → n ≤ length wdata
    → n ≤ b.buffer_size - b.busy_num
    → 2 ^ 32 ≤ b.wpos + n
    → write lock unlock (some b) (some wdata) n ≡ none
unfolding write write_checked write_locked write_copy write_at
write-wraps lock unlock b wdata n v have room wraps =
    ground (arith, v, zbuffer_lock-mutex lock unlock b, read_at-ok wdata 0 n, length-take n wdata)
