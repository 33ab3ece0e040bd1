-- ===== src/Buffer/Read.antt =====
-- zbaselib_buffer.c: `zbaselib_buffer_read`, `_get` and `_skip` refine the queue of the bytes held.
use native.Mathlib.Decide.{dec_le}
use zbaselib.Prelude.{
  le→leb, lt→leb, ℕ, ◌≤◌, ◌<◌, ◌≡◌, refl, ap, some, List, ◌++◌, arith, length, take, drop,
  length-take,
}
use zbaselib.Prelude.Int.{ℤ}
use zbaselib.Mutex.Laws.{IsBalanced}
use zbaselib.Buffer.Defs.{
  Buffer, done, out_of_range, zbuffer_lock, zbuffer_unlock, copy_out, advance, read_locked,
  read_checked, read, get_locked, get_checked, get, skip_checked, skip,
}
use zbaselib.Buffer.Inv.{
  IsValid, SameFrame, Served, ServedRead, contents, length-contents, block_or_nil,
}
use zbaselib.Buffer.Lock.{zbuffer_lock-mutex, zbuffer_unlock-zbuffer_lock}
use zbaselib.Buffer.Fifo.{take_out, discard}
use zbaselib.Buffer.Copy.{copy_out-contents, advance-IsValid, contents-advance, splice_front}

module _ {M : Type 0} (lock unlock : M → ℤ × M) (b : Buffer M) (n : ℕ)
    (balanced : IsBalanced lock unlock) (v : IsValid b) (some_data : 0 < n) where
  module _ (short : b.busy_num < n) where
    read-short :
        (rdata : List ℕ)
        → read lock unlock (some b) (some rdata) n ≡ some (out_of_range, some rdata, some b)
    unfolding read read_checked read_locked
    read-short rdata = ground (
      arith,
      v,
      zbuffer_lock-mutex lock unlock b,
      zbuffer_unlock-zbuffer_lock lock unlock b (zbuffer_lock lock unlock b) balanced,
    )

    get-short :
        (rdata : List ℕ)
        → get lock unlock (some b) (some rdata) n ≡ some (out_of_range, some rdata, some b)
    unfolding get get_checked get_locked
    get-short rdata = ground (
      arith,
      v,
      zbuffer_lock-mutex lock unlock b,
      zbuffer_unlock-zbuffer_lock lock unlock b (zbuffer_lock lock unlock b) balanced,
    )

    skip-short : skip lock unlock (some b) n ≡ (out_of_range, some b)
    unfolding skip skip_checked
    skip-short = ground (
      arith,
      v,
      zbuffer_lock-mutex lock unlock b,
      zbuffer_unlock-zbuffer_lock lock unlock b (zbuffer_lock lock unlock b) balanced,
    )

  module _ (held : n ≤ b.busy_num) where
    -- The lock changes no position, so the copy and the move under it are those of `b`.
    copy_out-locked :
        (rdata : List ℕ)
        → n ≤ length rdata
        → copy_out lock unlock (zbuffer_lock lock unlock b) (block_or_nil b.buffer) rdata n
          ≡ some (take n (contents b) ++ drop n rdata)
    unfolding copy_out
    copy_out-locked rdata room = ground (
      arith,
      v,
      zbuffer_lock-mutex lock unlock b,
      copy_out-contents lock unlock b n v held rdata room,
      splice_front rdata (take n (contents b)) n,
      length-contents b v,
      length-take n (contents b),
    )

    unlock-advance :
        zbuffer_unlock lock unlock (advance lock unlock (zbuffer_lock lock unlock b) n)
        ≡ advance lock unlock b n
    unfolding advance
    unlock-advance = ground (
      arith,
      zbuffer_lock-mutex lock unlock b,
      zbuffer_unlock-zbuffer_lock lock unlock b (advance lock unlock (zbuffer_lock lock unlock b) n)
          balanced,
    )

    read-fits :
        (rdata : List ℕ)
        → n ≤ length rdata
        → read lock unlock (some b) (some rdata) n
          ≡ some (done, some (take n (contents b) ++ drop n rdata), some (advance lock unlock b n))
    unfolding read read_checked read_locked
    read-fits rdata room =
        ground
          (arith, v, zbuffer_lock-mutex lock unlock b, copy_out-locked rdata room, unlock-advance)

    get-fits :
        (rdata : List ℕ)
        → n ≤ length rdata
        → get lock unlock (some b) (some rdata) n
          ≡ some (done, some (take n (contents b) ++ drop n rdata), some b)
    unfolding get get_checked get_locked
    get-fits rdata room = ground (
      arith,
      v,
      zbuffer_lock-mutex lock unlock b,
      copy_out-locked rdata room,
      zbuffer_unlock-zbuffer_lock lock unlock b (zbuffer_lock lock unlock b) balanced,
    )

    skip-fits : skip lock unlock (some b) n ≡ (done, some (advance lock unlock b n))
    unfolding skip skip_checked
    skip-fits = ground (arith, v, zbuffer_lock-mutex lock unlock b, unlock-advance)

    advance-SameFrame : SameFrame b (advance lock unlock b n)
    unfolding advance
    advance-SameFrame = ground arith

-- `zbaselib_buffer_read` of n > 0 bytes from a valid ring does what `take_out` does to the queue of
-- its contents, with the same status: the n oldest bytes are stored at the start of `*rdata` and
-- leave the queue, or, if there are fewer, it answers -2 and nothing changes. The ring stays valid,
-- and the mutex is released.
pub read-take_out :
    {M : Type 0} (lock unlock : M → ℤ × M) (b : Buffer M) (rdata : List ℕ) (n : ℕ)
    → IsBalanced lock unlock
    → IsValid b
    → 0 < n
    → n ≤ length rdata
    → let (status, out, queue) = take_out (contents b) rdata n in
      ServedRead b status queue out (read lock unlock (some b) (some rdata) n)
unfolding take_out
read-take_out lock unlock b rdata n balanced v some_data room = elim (dec_le n b.busy_num) [
  | yes held ↦ rw (le→leb n (length (contents b)) (omega (arith, length-contents b v))) (
    advance lock unlock b n,
    read-fits lock unlock b n balanced v some_data held rdata room,
    advance-IsValid lock unlock b n v held,
    advance-SameFrame lock unlock b n balanced v some_data held,
    contents-advance lock unlock b n v held,
  )
  | no short ↦ rw (lt→leb n (length (contents b)) (omega (arith, length-contents b v))) (
    b,
    read-short lock unlock b n balanced v some_data (omega arith) rdata,
    v,
    ground arith,
    refl,
  )
]

-- `zbaselib_buffer_get` of n > 0 bytes from a valid ring answers and stores in `*rdata` what
-- `take_out` does with the queue of its contents, and leaves the ring exactly as it was.
pub get-take_out :
    {M : Type 0} (lock unlock : M → ℤ × M) (b : Buffer M) (rdata : List ℕ) (n : ℕ)
    → IsBalanced lock unlock
    → IsValid b
    → 0 < n
    → n ≤ length rdata
    → let (status, out, _) = take_out (contents b) rdata n in
      get lock unlock (some b) (some rdata) n ≡ some (status, some out, some b)
unfolding take_out
get-take_out lock unlock b rdata n balanced v some_data room = elim (dec_le n b.busy_num) [
  | yes held ↦
      rw (le→leb n (length (contents b)) (omega (arith, length-contents b v)))
        (get-fits lock unlock b n balanced v some_data held rdata room)
  | no short ↦
      rw (lt→leb n (length (contents b)) (omega (arith, length-contents b v)))
        (get-short lock unlock b n balanced v some_data (omega arith) rdata)
]

-- `zbaselib_buffer_skip` of n > 0 bytes of a valid ring does what `discard` does to the queue of its
-- contents, with the same status. The ring stays valid, and the mutex is released.
skip-discard :
    {M : Type 0} (lock unlock : M → ℤ × M) (b : Buffer M) (n : ℕ)
    → IsBalanced lock unlock
    → IsValid b
    → 0 < n
    → let (status, queue) = discard (contents b) n in
      Served b status queue (some (skip lock unlock (some b) n))
unfolding discard
skip-discard lock unlock b n balanced v some_data = elim (dec_le n b.busy_num) [
  | yes held ↦ rw (le→leb n (length (contents b)) (omega (arith, length-contents b v))) (
    advance lock unlock b n,
    ap some (skip-fits lock unlock b n balanced v some_data held),
    advance-IsValid lock unlock b n v held,
    advance-SameFrame lock unlock b n balanced v some_data held,
    contents-advance lock unlock b n v held,
  )
  | no short ↦ rw (lt→leb n (length (contents b)) (omega (arith, length-contents b v))) (
    b,
    ap some (skip-short lock unlock b n balanced v some_data (omega arith)),
    v,
    ground arith,
    refl,
  )
]
