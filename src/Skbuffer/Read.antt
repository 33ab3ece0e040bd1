-- ===== src/Skbuffer/Read.antt =====
-- zbaselib_socket.c, the socket buffer: read, get and skip on the queue of its contents.
use zbaselib.Prelude.{
  ℕ, zero, suc, ◌≤◌, ◌≡◌, refl, some, List, ◌++◌, arith, min, length, take, drop, length-take, ap,
  ◌∙◌, sym,
}
use zbaselib.Prelude.Int.{ℤ, pos}
use zbaselib.Prelude.Block.{splice, read_at, read_at-ok, write_at, write_at-ok}
use zbaselib.Prelude.Span.{span, take-span, drop-span}
use zbaselib.Mutex.Laws.{IsBalanced}
use zbaselib.Buffer.Inv.{block_or_nil}
use zbaselib.Skbuffer.Defs.{
  Skbuffer, at_most, consume, rewind, read, read_checked, read_locked, get, get_checked, get_locked,
  skip, skip_checked, skip_locked, skbuffer_lock, skbuffer_unlock,
}
use zbaselib.Skbuffer.Inv.{
  IsValid, SameFrame, Served, contents, length-contents, skbuffer_lock-mutex,
  skbuffer_unlock-skbuffer_lock,
}
use zbaselib.Skbuffer.Room.{Kept, lock-Kept, Served-skbuffer_unlock, contents-skbuffer_lock}

module _ {M : Type 0} (c : Skbuffer M) (v : IsValid c) (n : ℕ) (le : n ≤ c.data_size) where
  -- The first `n` bytes taken off.
  pub consume-IsValid : IsValid (consume c n)
  unfolding consume rewind
  consume-IsValid = ground (arith, v)

  pub consume-SameFrame : SameFrame c (consume c n)
  unfolding consume rewind
  consume-SameFrame = ground arith

  pub contents-consume : contents (consume c n) ≡ drop n (contents c)
  unfolding contents consume rewind span
  contents-consume =
      let mem : List ℕ = block_or_nil c.buf in ground (arith, v, drop-span mem c.rpos c.data_size n)

splice_front : (mem xs : List ℕ) (n : ℕ) → length xs ≡ n → splice mem 0 xs ≡ xs ++ drop n mem
unfolding splice
splice_front mem xs n e = ap (λ k. xs ++ drop k mem) (omega arith)

module _ {M : Type 0} (lock unlock : M → ℤ × M) (b : Skbuffer M) (size : ℕ)
    (balanced : IsBalanced lock unlock) (v : IsValid b) where
  abbrev l : Skbuffer M
  l = skbuffer_lock lock unlock b

  abbrev k : Kept l l
  k = lock-Kept lock unlock b v

  same_count : l.data_size ≡ length (contents b)
  same_count = ground (arith, length-contents b v, skbuffer_lock-mutex lock unlock b)

  -- What the calls tell as the number of bytes.
  told : at_most lock unlock l size ≡ min size (length (contents b))
  told = ground (arith, same_count)

  -- The bytes that read and get copy to the caller.
  copied :
      (target : List ℕ) (n : ℕ)
      → n ≤ length (contents b)
      → n ≤ length target
      → (bytes : List ℕ) × (read_at (block_or_nil l.buf) l.rpos n ≡ some bytes)
        × (write_at target 0 bytes ≡ some (take n (contents b) ++ drop n target))
  unfolding span contents
  copied target n held room =
      let mem : List ℕ = block_or_nil l.buf in
      let front : take n (drop l.rpos mem) ≡ take n (contents b) =
        sym (take-span mem l.rpos l.data_size n (omega (arith, same_count)))
        ∙ ap (take n) (contents-skbuffer_lock lock unlock b) in
      let len : length (take n (contents b)) ≡ n = ground (arith, length-take n (contents b)) in
      (
        take n (contents b),
        read_at-ok mem l.rpos n (ground (arith, k.valid, same_count)) ∙ ap some front,
        write_at-ok target 0 (take n (contents b)) (omega (arith, len))
            ∙ ap some (splice_front target (take n (contents b)) n len),
      )

  -- The end of read and skip after n > 0 bytes.
  consumed :
      (code : ℤ) (n : ℕ)
      → n ≤ length (contents b)
      → Served b code
          (drop n (contents b))
          (some (code, some (skbuffer_unlock lock unlock (consume l n))))
  consumed code n held =
      let le : n ≤ l.data_size = omega (arith, same_count) in
      Served-skbuffer_unlock lock unlock b (consume l n) code (drop n (contents b)) balanced
        (consume-IsValid l k.valid n le) (consume-SameFrame l k.valid n le)
        (contents-consume l k.valid n le ∙ ap (drop n) (contents-skbuffer_lock lock unlock b))

  -- The end of all three where there is nothing to take.
  untouched : skbuffer_unlock lock unlock l ≡ b
  untouched = ground (
    arith,
    skbuffer_lock-mutex lock unlock b,
    skbuffer_unlock-skbuffer_lock lock unlock b l balanced,
  )

  skip-drop :
      (n : ℕ)
      → n ≡ min size (length (contents b))
      → Served b (pos n) (drop n (contents b)) (some (skip lock unlock (some b) size))
  unfolding skip skip_checked skip_locked
  skip-drop zero e = (b, ground (arith, v, told, untouched), v, ground arith, refl)
  skip-drop (suc n) e =
      let (c, run, w, f, q) = consumed (pos (suc n)) (suc n) (omega arith) in
      let run' : some (skip lock unlock (some b) size) ≡ some (pos (suc n), some c) =
        ground (arith, v, told, k.valid, same_count, run) in
      (c, run', w, f, q)

  get-take :
      (target : List ℕ) (n : ℕ)
      → n ≡ min size (length (contents b))
      → n ≤ length target
      → get lock unlock (some b) (some target) size
        ≡ some (pos n, some (take n (contents b) ++ drop n target), some b)
  unfolding get get_checked get_locked
  get-take target zero e room = ground (arith, v, told, untouched)
  get-take target (suc n) e room =
      let (bytes, r, w) = copied target (suc n) (omega arith) room in
      ground (arith, v, told, k.valid, untouched, same_count)

  read-take :
      (target : List ℕ) (n : ℕ)
      → n ≡ min size (length (contents b))
      → n ≤ length target
      → (b' : Skbuffer M) × (read lock unlock (some b) (some target) size
          ≡ some (pos n, some (take n (contents b) ++ drop n target), some b'))
        × IsValid b'
        × SameFrame b b'
        × (contents b' ≡ drop n (contents b))
  unfolding read read_checked read_locked
  read-take target zero e room = (b, ground (arith, v, told, untouched), v, ground arith, refl)
  read-take target (suc n) e room =
      let (bytes, r, w) = copied target (suc n) (omega arith) room in
      let (c, run, v', f, q) = consumed (pos (suc n)) (suc n) (omega arith) in
      let same : some (skbuffer_unlock lock unlock (consume l (suc n))) ≡ some c = ground arith in
      (c, ground (arith, v, told, k.valid, same_count), v', f, q)

-- `zbaselib_skbuffer_read`, `_get` and `_skip` of a valid buffer that holds the bytes q answer n, the
-- smaller of the size asked for and the length of q. read and get store the first n bytes of q at the
-- start of the caller's memory, if that has room for them; read and skip take them out of the queue and
-- leave a valid buffer, and get leaves the buffer as it was.
pub reads-contents :
    {M : Type 0} (lock unlock : M → ℤ × M) (b : Skbuffer M) (target : List ℕ) (size : ℕ)
    → IsBalanced lock unlock
    → IsValid b
    → min size (length (contents b)) ≤ length target
    → let q = contents b in
      let n = min size (length q) in
      ((b' : Skbuffer M) × (read lock unlock (some b) (some target) size
          ≡ some (pos n, some (take n q ++ drop n target), some b'))
        × IsValid b'
        × SameFrame b b'
        × (contents b' ≡ drop n q))
      × (get lock unlock (some b) (some target) size
          ≡ some (pos n, some (take n q ++ drop n target), some b))
      × Served b (pos n) (drop n q) (some (skip lock unlock (some b) size))
reads-contents lock unlock b target size balanced v room =
    let n : ℕ = min size (length (contents b)) in
    (
      read-take lock unlock b size balanced v target n refl room,
      get-take lock unlock b size balanced v target n refl room,
      skip-drop lock unlock b size balanced v n refl,
    )
