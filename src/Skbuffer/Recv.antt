-- ===== src/Skbuffer/Recv.antt =====
-- zbaselib_socket.c, the socket buffer: `zbaselib_skbuffer_recv` puts what came at the end of the queue.
use zbaselib.Prelude.{
  ℕ, ◌+◌, ◌-◌, ◌/◌, ◌^◌, ◌≤◌, ◌<◌, ◌≡◌, refl, true, false, Option, some, List, [], ◌∷◌, ◌++◌, arith,
  length, ap, ◌∙◌, inl, inr, ◌⊎◌,
}
use zbaselib.Prelude.Int.{ℤ, pos, negsuc}
use zbaselib.Prelude.Block.{write_at-ok}
use zbaselib.Mutex.Laws.{IsBalanced}
use zbaselib.Buffer.Inv.{block_or_nil}
use zbaselib.Socket.Defs.{RecvAnswer, arrived, failed, isvalid}
use zbaselib.Skbuffer.Defs.{Skbuffer, min_num, skbuffer_lock, skbuffer_unlock}
use zbaselib.Skbuffer.Net.{room, status, fill, is_usable, recv, recv_room}
use zbaselib.Skbuffer.Inv.{IsRealloc, IsValid, Served, Served-eq, contents, skbuffer_lock-mutex}
use zbaselib.Skbuffer.Space.{more, more-IsValid, contents-more, made_room}
use zbaselib.Skbuffer.Room.{
  Kept, lock-Kept, Served-skbuffer_unlock, Kept-Served, contents-skbuffer_lock,
}

-- What an answer of recv means to the queue `q`, and the status that tells it.
unfoldable pub take_in : RecvAnswer → List ℕ → ℤ × List ℕ
take_in (arrived []) q = (negsuc 0, q)
take_in (arrived (x ∷ xs)) q = (pos 0, q ++ x ∷ xs)
take_in (failed true) q = (pos 0, q)
take_in (failed false) q = (negsuc 0, q)

-- recv gives no more bytes than it is asked for.
abbrev pub IsBounded : (ℕ → RecvAnswer) → Type 0
IsBounded system = (n : ℕ) (xs : List ℕ) → system n ≡ arrived xs → length xs ≤ n

module _ {M : Type 0} (lock unlock : M → ℤ × M) (b : Skbuffer M) (balanced : IsBalanced lock unlock)
    (system : ℕ → RecvAnswer) (bounded : IsBounded system) where
  abbrev l : Skbuffer M
  l = skbuffer_lock lock unlock b

  -- The end of the call, from the buffer `c` with room at its end.
  filled :
      (c : Skbuffer M) (answer : RecvAnswer)
      → Kept l c
      → c.wpos ≤ c.buf_size
      → system (c.buf_size - c.wpos) ≡ answer
      → let (status, queue) = take_in answer (contents b) in
        Served b status queue (recv_room lock unlock system (room c))
  unfolding take_in recv_room fill
  filled c (arrived []) k le e =
      Served-eq b _ _ _ (some (negsuc 0, some (skbuffer_unlock lock unlock c))) refl
        (ground (arith, k.valid)) (Kept-Served lock unlock b c (negsuc 0) balanced k)
  filled c (arrived (x ∷ xs)) k le e =
      let fits : c.wpos + length (x ∷ xs) ≤ c.buf_size =
        omega (arith, bounded (c.buf_size - c.wpos) (x ∷ xs) e) in
      Served-eq b _ _ _ (some (pos 0, some (skbuffer_unlock lock unlock (more c k.valid (x ∷ xs)))))
        refl (ground (arith, k.valid, write_at-ok (block_or_nil c.buf) c.wpos (x ∷ xs)))
        (Served-skbuffer_unlock lock unlock b (more c k.valid (x ∷ xs)) (pos 0)
          (contents b ++ x ∷ xs) balanced (more-IsValid c k.valid (x ∷ xs) fits)
          (ground (arith, k.frame))
          (contents-more c k.valid (x ∷ xs) fits
            ∙ ap (λ q. q ++ x ∷ xs) (k.same_bytes ∙ contents-skbuffer_lock lock unlock b)))
  filled c (failed true) k le e =
      Served-eq b _ _ _ (some (pos 0, some (skbuffer_unlock lock unlock c))) refl
        (ground (arith, k.valid)) (Kept-Served lock unlock b c (pos 0) balanced k)
  filled c (failed false) k le e =
      Served-eq b _ _ _ (some (negsuc 0, some (skbuffer_unlock lock unlock c))) refl
        (ground (arith, k.valid)) (Kept-Served lock unlock b c (negsuc 0) balanced k)

-- `zbaselib_skbuffer_recv` on a valid buffer of a valid socket, where realloc succeeds and the next size
-- of the block is below 2^31. If the bytes it holds fill a block whose size is past its maximum, it
-- answers -3 and they stay. In all other cases, the one of a full block of just the maximum among them, it asks the system for n > 0 bytes, and does to the queue
-- of its contents what the answer means: bytes that come are put at its end, with status 0; a call that
-- would block leaves it, with status 0; the end of the stream and an error leave it, with status -1. The
-- buffer stays valid, and the mutex is released.
pub recv-take_in :
    {M : Type 0} (lock unlock : M → ℤ × M) (realloc : List ℕ → ℕ → Option (List ℕ))
    (system : ℕ → RecvAnswer) (b : Skbuffer M) (fd : ℕ)
    → IsBalanced lock unlock
    → IsRealloc realloc
    → IsBounded system
    → IsValid b
    → b.sock ≡ pos fd
    → b.buf_size + b.buf_size / 2 + min_num < 2 ^ 31
    → let q = contents b in
      let reply = recv lock unlock realloc system (some b) in
      ((length q ≡ b.buf_size) × (b.buf_max_size < b.buf_size) × Served b (negsuc 2) q reply)
      ⊎ ((length q ≡ b.buf_size → b.buf_size ≤ b.buf_max_size)
          × (n : ℕ) × (0 < n)
          × let (status, queue) = take_in (system n) q in Served b status queue reply)
unfolding recv is_usable isvalid
recv-take_in lock unlock realloc system b fd balanced grows bounded v sock fits =
    let l : Skbuffer _ = skbuffer_lock lock unlock b in
    let k : Kept l l = lock-Kept lock unlock b v in
    let same = contents-skbuffer_lock lock unlock b in
    let frame = skbuffer_lock-mutex lock unlock b in
    let same_length : length (contents l) ≡ length (contents b) = ap length same in
    elim (made_room l k.valid realloc grows (ground (arith, frame))) [
      | inl (whole, stuck, made) ↦ inl (
        ground (arith, frame, same_length),
        ground (arith, frame),
        Served-eq b _ (negsuc 2, contents b) _
            (some (negsuc 2, some (skbuffer_unlock lock unlock l))) refl (ground (arith, v))
            (Kept-Served lock unlock b l (negsuc 2) balanced k),
      )
      | inr (below, c, kc, free, small, made) ↦ inr (
        (λ h. ground (arith, frame, same_length, below)),
        c.buf_size - c.wpos,
        omega arith,
        Served-eq b _ _ _ (recv_room lock unlock system (room c)) refl (ground (arith, v)) (
            filled lock unlock b balanced system bounded c (system (c.buf_size - c.wpos)) kc
              (omega arith) refl),
      )
    ]
