-- ===== src/Skbuffer/Drain.antt =====
-- zbaselib_socket.c, the socket buffer: `zbaselib_skbuffer_udp_recv` takes datagrams until there is none.
use zbaselib.Prelude.{
  ℕ, ◌+◌, ◌-◌, ◌/◌, ◌^◌, ◌≤◌, ◌<◌, ◌≡◌, ◌≢◌, refl, true, false, Option, some, List, [], ◌∷◌, ◌++◌,
  arith, max, length, ap, ◌∙◌, subst, inl, inr,
}
use zbaselib.Prelude.Int.{ℤ, pos, negsuc}
use zbaselib.Prelude.Block.{write_at-ok}
use zbaselib.Mutex.Laws.{IsBalanced}
use zbaselib.Buffer.Inv.{block_or_nil}
use zbaselib.Socket.Defs.{RecvAnswer, arrived, failed, isvalid}
use zbaselib.Skbuffer.Defs.{Skbuffer, min_num, skbuffer_lock, skbuffer_unlock}
use zbaselib.Skbuffer.Net.{room, status, make_room, fill, is_usable, udp_loop, udp_recv}
use zbaselib.Skbuffer.Inv.{
  IsRealloc, IsValid, SameFrame, Served, Served-eq, contents, skbuffer_lock-mutex,
}
use zbaselib.Skbuffer.Space.{more, more-IsValid, contents-more, made_room}
use zbaselib.Skbuffer.Recv.{IsBounded}
use zbaselib.Skbuffer.Room.{Kept, lock-Kept, Served-skbuffer_unlock, contents-skbuffer_lock}

-- What the calls of recvfrom in turn, each for n > 0 bytes, do to the queue `q` of a buffer with the bound
-- `limit`: the status and the queue in the end.
pub data Drained (limit : ℕ) : List (ℕ → RecvAnswer) → List ℕ → ℤ → List ℕ → Type 0 where
  came :
      {system : ℕ → RecvAnswer} {answers : List (ℕ → RecvAnswer)} {q q' : List ℕ} {status : ℤ}
      {n x : ℕ} {xs : List ℕ}
      → 0 < n
      → system n ≡ arrived (x ∷ xs)
      → Drained limit answers (q ++ x ∷ xs) status q'
      → Drained limit (system ∷ answers) q status q'
  would_block :
      {system : ℕ → RecvAnswer} {answers : List (ℕ → RecvAnswer)} {q : List ℕ} {n : ℕ}
      → 0 < n
      → system n ≡ failed true
      → Drained limit (system ∷ answers) q (pos 0) q
  broke :
      {system : ℕ → RecvAnswer} {answers : List (ℕ → RecvAnswer)} {q : List ℕ} {n : ℕ}
      → 0 < n
      → system n ≡ failed false
      → Drained limit (system ∷ answers) q (negsuc 0) q
  no_bytes :
      {system : ℕ → RecvAnswer} {answers : List (ℕ → RecvAnswer)} {q : List ℕ} {n : ℕ}
      → 0 < n
      → system n ≡ arrived []
      → Drained limit (system ∷ answers) q (negsuc 0) q
  over_limit :
      {answers : List (ℕ → RecvAnswer)} {q : List ℕ}
      → limit < length q
      → Drained limit answers q (negsuc 2) q

-- At last there comes an answer without bytes, and no answer before is longer than the room for it.
pub data IsEnding : List (ℕ → RecvAnswer) → Type 0 where
  last :
      {system : ℕ → RecvAnswer} {answers : List (ℕ → RecvAnswer)}
      → ((n x : ℕ) (xs : List ℕ) → system n ≢ arrived (x ∷ xs))
      → IsEnding (system ∷ answers)
  before :
      {system : ℕ → RecvAnswer} {answers : List (ℕ → RecvAnswer)}
      → IsBounded system
      → IsEnding answers
      → IsEnding (system ∷ answers)

-- The largest block that a buffer can get while it receives.
abbrev pub largest : {M : Type 0} → Skbuffer M → ℕ
largest b = max b.buf_size (b.buf_max_size + b.buf_max_size / 2 + min_num)

module _ {M : Type 0} (lock unlock : M → ℤ × M) (realloc : List ℕ → ℕ → Option (List ℕ))
    (b : Skbuffer M) (balanced : IsBalanced lock unlock) (grows : IsRealloc realloc)
    (fits : largest b + largest b / 2 + min_num < 2 ^ 31) where
  abbrev l : Skbuffer M
  l = skbuffer_lock lock unlock b

  -- A buffer that the loop can have.
  record Reached (c : Skbuffer M) : Type 0 where
    valid : IsValid c
    frame : SameFrame l c
    small : c.buf_size ≤ largest b

  abbrev Done : List (ℕ → RecvAnswer) → Skbuffer M → Type 0
  Done answers c =
      (status : ℤ) × (q : List ℕ) × Drained b.buf_max_size answers (contents c) status q
      × Served b status q (udp_loop lock unlock realloc answers c)

  -- One round, from the buffer `d` with room made in `c`, by its answer.
  round :
      (system : ℕ → RecvAnswer) (answers : List (ℕ → RecvAnswer)) (c d : Skbuffer M)
      (answer : RecvAnswer)
      → Reached c
      → Reached d
      → contents d ≡ contents c
      → make_room realloc c ≡ some (room d)
      → d.wpos < d.buf_size
      → system (d.buf_size - d.wpos) ≡ answer
      → ((x : ℕ) (xs : List ℕ)
          → answer ≡ arrived (x ∷ xs)
          → (length (x ∷ xs) ≤ d.buf_size - d.wpos)
            × ((e : Skbuffer M) → Reached e → Done answers e))
      → Done (system ∷ answers) c
  unfolding udp_loop fill
  round system answers c d (arrived []) rc rd same made free e next = (
    negsuc 0,
    contents c,
    no_bytes (omega arith) e,
    Served-eq b _ _ _ (some (negsuc 0, some (skbuffer_unlock lock unlock d))) refl
        (ground (arith, rd.valid, rd.small))
        (Served-skbuffer_unlock lock unlock b d (negsuc 0) (contents c) balanced rd.valid rd.frame
          same),
  )
  round system answers c d (arrived (x ∷ xs)) rc rd same made free e next =
      let (fit, go) = next x xs refl in
      let d' : Skbuffer M = more d rd.valid (x ∷ xs) in
      let inside : d.wpos + length (x ∷ xs) ≤ d.buf_size = omega arith in
      let (status, q, dr, served) = go d' (record {
        valid = more-IsValid d rd.valid (x ∷ xs) inside;
        frame = ground (arith, rd.frame);
        small = rd.small;
      }) in
      (
        status,
        q,
        came (omega arith) e (
            subst (λ q'. Drained b.buf_max_size answers q' status q)
              (contents-more d rd.valid (x ∷ xs) inside ∙ ap (λ q. q ++ x ∷ xs) same) dr),
        Served-eq b _ _ _ (udp_loop lock unlock realloc answers d') refl
            (ground (arith, rd.valid, write_at-ok (block_or_nil d.buf) d.wpos (x ∷ xs))) served,
      )
  round system answers c d (failed true) rc rd same made free e next = (
    pos 0,
    contents c,
    would_block (omega arith) e,
    Served-eq b _ _ _ (some (pos 0, some (skbuffer_unlock lock unlock d))) refl
        (ground (arith, rd.valid, rd.small))
        (Served-skbuffer_unlock lock unlock b d (pos 0) (contents c) balanced rd.valid rd.frame
          same),
  )
  round system answers c d (failed false) rc rd same made free e next = (
    negsuc 0,
    contents c,
    broke (omega arith) e,
    Served-eq b _ _ _ (some (negsuc 0, some (skbuffer_unlock lock unlock d))) refl
        (ground (arith, rd.valid, rd.small))
        (Served-skbuffer_unlock lock unlock b d (negsuc 0) (contents c) balanced rd.valid rd.frame
          same),
  )

  -- The same from the buffer `c`.
  round_from :
      (system : ℕ → RecvAnswer) (answers : List (ℕ → RecvAnswer)) (c : Skbuffer M)
      → Reached c
      → ((n x : ℕ) (xs : List ℕ)
          → system n ≡ arrived (x ∷ xs)
          → (length (x ∷ xs) ≤ n) × ((e : Skbuffer M) → Reached e → Done answers e))
      → Done (system ∷ answers) c
  unfolding udp_loop
  round_from system answers c rc next =
      let fit : c.buf_size + c.buf_size / 2 + min_num < 2 ^ 31 = omega (arith, rc.small) in
      let same_max : c.buf_max_size ≡ b.buf_max_size =
        ground (arith, rc.frame, skbuffer_lock-mutex lock unlock b) in
      elim (made_room c rc.valid realloc grows fit) [
        | inl (whole, stuck, made) ↦ (
          negsuc 2,
          contents c,
          over_limit (omega arith),
          Served-eq b _ _ _ (some (negsuc 2, some (skbuffer_unlock lock unlock c))) refl
              (ground arith)
              (Served-skbuffer_unlock lock unlock b c (negsuc 2) (contents c) balanced rc.valid
                rc.frame refl),
        )
        | inr (below, d, k, free, small, made) ↦
            let rd : Reached d = record {
              valid = k.valid;
              frame = ground (arith, rc.frame, k.frame);
              small = omega (arith, rc.small);
            } in
            round system answers c d (system (d.buf_size - d.wpos)) rc rd k.same_bytes made free
              refl (next (d.buf_size - d.wpos))
      ]

  loop-Drained :
      (answers : List (ℕ → RecvAnswer)) (c : Skbuffer M)
      → IsEnding answers
      → Reached c
      → Done answers c
  loop-Drained [] c ending rc = elim ending [ ]
  loop-Drained (system ∷ answers) c (last never) rc =
      round_from system answers c rc (λ n x xs e. absurd (never n x xs e))
  loop-Drained (system ∷ answers) c (before bounded rest) rc =
      round_from system answers c rc
        λ n x xs e. (bounded n (x ∷ xs) e, λ d rd. loop-Drained answers d rest rd)

-- `zbaselib_skbuffer_udp_recv` on a valid buffer of a valid socket, where the answers of recvfrom come to
-- one without bytes in the end, realloc succeeds and no block the buffer can get by growing is 2^31 bytes
-- large: the call returns. It has put the bytes of all answers before at the end of the queue, in order;
-- its status is 0 if it stopped at a call that would block, -1 at an error or an empty answer, and -3 where
-- the bytes held are more than the maximum of the block, which grows once more when it is full at just the
-- maximum. The buffer stays valid, and the mutex is released.
pub udp_recv-Drained :
    {M : Type 0} (lock unlock : M → ℤ × M) (realloc : List ℕ → ℕ → Option (List ℕ))
    (answers : List (ℕ → RecvAnswer)) (b : Skbuffer M) (fd : ℕ)
    → IsBalanced lock unlock
    → IsRealloc realloc
    → IsEnding answers
    → IsValid b
    → b.sock ≡ pos fd
    → largest b + largest b / 2 + min_num < 2 ^ 31
    → (status : ℤ) × (q : List ℕ) × Drained b.buf_max_size answers (contents b) status q
      × Served b status q (udp_recv lock unlock realloc answers (some b))
unfolding udp_recv is_usable isvalid
udp_recv-Drained lock unlock realloc answers b fd balanced grows ending v sock fits =
    let l : Skbuffer _ = skbuffer_lock lock unlock b in
    let k : Kept l l = lock-Kept lock unlock b v in
    let start : Reached lock unlock realloc b balanced grows fits l = record {
      valid = k.valid;
      frame = k.frame;
      small = ground (arith, skbuffer_lock-mutex lock unlock b);
    } in
    let (status, q, dr, served) =
      loop-Drained lock unlock realloc b balanced grows fits answers l ending start in
    (
      status,
      q,
      subst (λ q'. Drained b.buf_max_size answers q' status q)
          (contents-skbuffer_lock lock unlock b) dr,
      Served-eq b _ _ _ (udp_loop lock unlock realloc answers l) refl (ground (arith, v)) served,
    )
