-- ===== src/Skbuffer/Write.antt =====
-- zbaselib_socket.c, the socket buffer: `zbaselib_skbuffer_write` is `put`.
use zbaselib.Prelude.{
  ℕ, ◌+◌, ◌/◌, ◌^◌, ◌≤◌, ◌<◌, ◌≡◌, refl, Option, some, List, ◌++◌, arith, ltb, ◌&&◌, length, take,
  length-take, ap, ◌∙◌, sym, Bool-cases, inl, inr,
}
use zbaselib.Prelude.Int.{ℤ, pos, negsuc}
use zbaselib.Prelude.Block.{splice, read_at-ok, write_at-ok, length-splice}
use zbaselib.Prelude.Span.{span, span-splice}
use zbaselib.Mutex.Laws.{IsBalanced}
use zbaselib.Buffer.Inv.{block_or_nil}
use zbaselib.Skbuffer.Defs.{
  write_room, Skbuffer, store, write, write_checked, write_locked, skbuffer_lock, skbuffer_unlock,
}
use zbaselib.Skbuffer.Inv.{
  put, IsRealloc, IsValid, Served, Served-eq, contents, length-contents, skbuffer_lock-mutex,
  skbuffer_unlock-skbuffer_lock,
}
use zbaselib.Skbuffer.Room.{
  Kept, pulled, pull-ok, pulled-Kept, grow-Kept, Kept-Kept, lock-Kept, Kept-Served,
  contents-skbuffer_lock,
}

module _ {M : Type 0} (lock unlock : M → ℤ × M) (b : Skbuffer M) (balanced : IsBalanced lock unlock)
    (source : List ℕ) (size : ℕ) (have : size ≤ length source) where
  -- The copy into a buffer `c` that the call has made from `b`, with room for it.
  store-Served :
      (c : Skbuffer M)
      → Kept (skbuffer_lock lock unlock b) c
      → contents (skbuffer_lock lock unlock b) ≡ contents b
      → c.wpos + size ≤ c.buf_size
      → Served b (pos 0) (contents b ++ take size source) (store lock unlock c source size)
  unfolding store contents
  store-Served c k same room =
      let mem : List ℕ = block_or_nil c.buf in
      let mem' : List ℕ = splice mem c.wpos (take size source) in
      let len : length (take size source) ≡ size = ground (arith, length-take size source) in
      let d : Skbuffer M = record c {
        buf = some mem';
        wpos = c.wpos + size;
        data_size = c.data_size + size;
      } in
      (
        record d { mutex = b.mutex },
        ground (
          arith,
          k.valid,
          read_at-ok source 0 size,
          write_at-ok mem c.wpos (take size source),
          skbuffer_lock-mutex lock unlock b,
          skbuffer_unlock-skbuffer_lock lock unlock b d balanced,
        ),
        record {
          allocated = refl;
          block_size = ground (arith, k.valid, length-splice mem c.wpos (take size source));
          wpos_eq = ground (arith, k.valid);
          wpos_in = room;
          small = ground (arith, k.valid);
        },
        ground (arith, k.frame, skbuffer_lock-mutex lock unlock b),
        ap (λ w. span (splice mem w (take size source)) c.rpos (c.data_size + size)) k.valid.wpos_eq
            ∙ ap
                (λ n.
                  span (splice mem (c.rpos + c.data_size) (take size source)) c.rpos
                    (c.data_size + n))
                (sym len)
            ∙ span-splice mem (take size source) c.rpos c.data_size (ground (arith, k.valid))
            ∙ ap (λ q. q ++ take size source) (k.same_bytes ∙ same),
      )

  -- The second half of the call, from a buffer `c` whose bytes stand in front if they do not fit.
  write_room-Served :
      (realloc : List ℕ → ℕ → Option (List ℕ)) (c : Skbuffer M)
      → IsRealloc realloc
      → IsValid b
      → b.buf_size + b.buf_size / 2 + size < 2 ^ 31
      → Kept (skbuffer_lock lock unlock b) c
      → c.buf_size ≡ b.buf_size
      → contents (skbuffer_lock lock unlock b) ≡ contents b
      → (c.buf_size < c.wpos + size → c.rpos ≡ 0)
      → let (status, queue) = put b.buf_size b.buf_max_size (contents b) (take size source) in
        Served b status queue (write_room lock unlock realloc c source size)
  unfolding write_room put
  write_room-Served realloc c grows v fits k cap same front =
      let xs : List ℕ = take size source in
      let q : List ℕ = contents b in
      let lq : length q ≡ b.data_size = length-contents b v in
      let lx : length xs ≡ size = ground (arith, length-take size source) in
      let same_count : c.data_size ≡ b.data_size =
        ground (arith, k.same_count, skbuffer_lock-mutex lock unlock b) in
      let same_max : c.buf_max_size ≡ b.buf_max_size =
        ground (arith, k.frame, skbuffer_lock-mutex lock unlock b) in
      elim (Bool-cases (ltb c.buf_size (c.wpos + size))) [
        | inr fit ↦
            Served-eq b _ (pos 0, q ++ xs) _ (store lock unlock c source size)
              (ground (arith, k.valid)) (ground (arith, k.valid))
              (store-Served c k same (ground arith))
        | inl over ↦ elim (Bool-cases (ltb b.buf_max_size b.buf_size)) [
          | inl stuck ↦
              Served-eq b _ (negsuc 1, q) _ (some (negsuc 1, some (skbuffer_unlock lock unlock c)))
                (ground (arith, k.valid, front)) (ground (arith, k.valid))
                (Kept-Served lock unlock b c (negsuc 1) balanced k)
          | inr grows' ↦
              let (d, run, kd, cap', w) = grow-Kept c k.valid realloc size grows (omega arith) in
              Served-eq b _ (pos 0, q ++ xs) _ (store lock unlock d source size) (ground arith)
                (ground (arith, k.valid, run)) (store-Served d (Kept-Kept k kd) same (omega arith))
        ]
      ]

-- `zbaselib_skbuffer_write` to a valid buffer does what `put` does to the queue of its contents, with
-- the same status, where realloc succeeds and the next size of the block is below 2^31: all bytes go
-- to the end of the queue, in the block as it is, after a move to its front, or, where the size of the block
-- is not past its maximum, in a larger block, so that a block of just the maximum grows once more; or, if
-- they do not fit and the size is past the maximum, it answers -2 and the contents stay. The buffer stays
-- valid, and the mutex is released.
pub write-skbuffer_put :
    {M : Type 0} (lock unlock : M → ℤ × M) (realloc : List ℕ → ℕ → Option (List ℕ)) (b : Skbuffer M)
    (source : List ℕ) (size : ℕ)
    → IsBalanced lock unlock
    → IsRealloc realloc
    → IsValid b
    → size ≤ length source
    → b.buf_size + b.buf_size / 2 + size < 2 ^ 31
    → let (status, queue) = put b.buf_size b.buf_max_size (contents b) (take size source) in
      Served b status queue (write lock unlock realloc (some b) (some source) size)
unfolding write write_checked write_locked
write-skbuffer_put lock unlock realloc b source size balanced grows v have fits =
    let l = skbuffer_lock lock unlock b in
    let k : Kept l l = lock-Kept lock unlock b v in
    let same = contents-skbuffer_lock lock unlock b in
    elim (Bool-cases (ltb l.buf_size (l.wpos + size) && ltb 0 l.rpos)) [
      | inl far ↦
          Served-eq b _ _ _ (write_room lock unlock realloc (pulled l k.valid) source size) refl
            (ground (arith, v, k.valid, skbuffer_lock-mutex lock unlock b, pull-ok l k.valid))
            (write_room-Served lock unlock b balanced source size have realloc (pulled l k.valid)
              grows v fits (pulled-Kept l k.valid)
              (ground (arith, skbuffer_lock-mutex lock unlock b)) same (λ h. refl))
      | inr near ↦
          Served-eq b _ _ _ (write_room lock unlock realloc l source size) refl
            (ground (arith, v, k.valid, skbuffer_lock-mutex lock unlock b))
            (write_room-Served lock unlock b balanced source size have realloc l grows v fits k
              (ground (arith, skbuffer_lock-mutex lock unlock b)) same (λ h. ground arith))
    ]
