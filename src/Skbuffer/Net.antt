-- ===== src/Skbuffer/Net.antt =====
-- zbaselib_socket.c, the socket buffer: receiving into it, sending from it, and the questions about it.
use zbaselib.Prelude.{
  ℕ, ◌-◌, ◌^◌, Bool, true, false, Option, none, some, List, [], ◌∷◌, ◌==◌, ◌>>=◌, ltb,
  if◌then◌else◌, length,
}
use zbaselib.Prelude.Int.{ℤ, pos, negsuc, to_size, signed32}
use zbaselib.Prelude.Block.{read_at, write_at}
use zbaselib.Buffer.Defs.{add32, sub32}
use zbaselib.Socket.Defs.{SendAnswer, RecvAnswer, arrived, failed, Sent, sendn, isvalid}
use zbaselib.Skbuffer.Defs.{
  Skbuffer, Reply, min_num, pull, consume, grow, skbuffer_lock, skbuffer_unlock,
}

-- The buffer with room at its end, or as it is where it may not grow.
pub data Room (M : Type 0) : Type 0 where
  room : Skbuffer M → Room M
  full : Skbuffer M → Room M

-- What one call of recv does: the buffer, and whether bytes came (`got`), the stream is over or broken
-- (`lost`), or there is nothing for now (`idle`).
pub data Outcome : Type 0 where
  got lost idle : Outcome

abbrev pub status : Outcome → ℤ
status got = pos 0
status lost = negsuc 0
status idle = pos 0

module _ {M : Type 0} where
  unfoldable pub make_room : (List ℕ → ℕ → Option (List ℕ)) → Skbuffer M → Option (Room M)
  unfolding pull grow
  make_room realloc b =
      if ltb b.wpos b.buf_size
      then some (room b)
      else if ltb 0 b.rpos
      then (do b' ← pull b; some (room b'))
      else if ltb b.buf_max_size b.buf_size
      then some (full b)
      else (do b' ← grow realloc b min_num; some (room b'))

  -- recv or recvfrom into the room. `system` is its answer to a number of bytes; into a block that could
  -- not be had it is a fault.
  unfoldable pub fill : (ℕ → RecvAnswer) → Skbuffer M → Option (Outcome × Skbuffer M)
  fill system b = do
    mem ← b.buf
    elim (system (to_size (signed32 (sub32 b.buf_size b.wpos)))) [
      | arrived [] ↦ some (lost, b)
      | arrived (x ∷ xs) ↦ (do
        mem' ← write_at mem b.wpos (x ∷ xs)
        some (
          got,
          record b {
            buf = some mem';
            wpos = add32 b.wpos (length (x ∷ xs));
            data_size = add32 b.data_size (length (x ∷ xs));
          },
        ))
      | failed true ↦ some (idle, b)
      | failed false ↦ some (lost, b)
    ]

  -- The guard of recv, udp_recv and send.
  unfoldable pub is_usable : Skbuffer M → Bool
  unfolding isvalid
  is_usable b = elim b.buf [ none ↦ false | some mem ↦ isvalid b.sock ]

  -- The number of bytes that one call of send tries.
  unfoldable pub chunk : Skbuffer M → ℕ
  chunk b =
      let limit : ℕ = elim b.sock_snd_buf_size [ pos n ↦ n | negsuc n ↦ 2 ^ 32 - 1 - n ] in
      if ltb b.data_size limit then b.data_size else limit

module _ {M : Type 0} (pthread_mutex_lock pthread_mutex_unlock : M → ℤ × M) where
  abbrev locked : Skbuffer M → Skbuffer M
  locked b = skbuffer_lock pthread_mutex_lock pthread_mutex_unlock b

  abbrev unlocked : Skbuffer M → Option (Skbuffer M)
  unlocked b = some (skbuffer_unlock pthread_mutex_lock pthread_mutex_unlock b)

  unfoldable pub recv_room : (ℕ → RecvAnswer) → Room M → Reply M
  unfolding fill skbuffer_unlock
  recv_room system (full b) = some (negsuc 2, unlocked b)
  recv_room system (room b) = do (out, b') ← fill system b; some (status out, unlocked b')

  unfoldable pub recv :
      (List ℕ → ℕ → Option (List ℕ)) → (ℕ → RecvAnswer) → Option (Skbuffer M) → Reply M
  unfolding make_room recv_room is_usable skbuffer_lock
  recv realloc system none = some (negsuc 1, none)
  recv realloc system (some b) =
      if is_usable b
      then (do r ← make_room realloc (locked b); recv_room system r)
      else some (negsuc 1, some b)

  -- The loop of udp_recv, with the answers of recvfrom in turn. `none` where the answers run out stands
  -- for a call that has not returned.
  unfoldable pub udp_loop :
      (List ℕ → ℕ → Option (List ℕ)) → List (ℕ → RecvAnswer) → Skbuffer M → Reply M
  unfolding make_room fill skbuffer_unlock
  udp_loop realloc [] b = none
  udp_loop realloc (system ∷ answers) b = do
    r ← make_room realloc b
    elim r [
      | full b' ↦ some (negsuc 2, unlocked b')
      | room b' ↦ (do
        (out, b'') ← fill system b'
        elim out [
          | got ↦ udp_loop realloc answers b''
          | lost ↦ some (negsuc 0, unlocked b'')
          | idle ↦ some (pos 0, unlocked b'')
        ])
    ]

  unfoldable pub udp_recv :
      (List ℕ → ℕ → Option (List ℕ)) → List (ℕ → RecvAnswer) → Option (Skbuffer M) → Reply M
  unfolding udp_loop is_usable skbuffer_lock
  udp_recv realloc answers none = some (negsuc 1, none)
  udp_recv realloc answers (some b) =
      if is_usable b then udp_loop realloc answers (locked b) else some (negsuc 1, some b)

  -- After the sends: the status, the bytes handed to the system, and the buffer.
  unfoldable pub sent : Skbuffer M → Sent → ℤ × List ℕ × Option (Skbuffer M)
  unfolding consume skbuffer_unlock
  sent b s = elim s.result [
    | pos n ↦
        if n == 0
        then (negsuc 0, s.handed, unlocked b)
        else (pos 0, s.handed, unlocked (consume b n))
    | negsuc n ↦ (negsuc 0, s.handed, unlocked b)
  ]

  unfoldable pub send_locked :
      List SendAnswer → Skbuffer M → Option (ℤ × List ℕ × Option (Skbuffer M))
  unfolding chunk sent skbuffer_unlock
  send_locked answers b = if b.data_size == 0 then some (pos 0, [], unlocked b) else (do
    mem ← b.buf
    bytes ← read_at mem b.rpos (chunk b)
    s ← sendn answers bytes (chunk b)
    some (sent b s))

  unfoldable pub send :
      List SendAnswer → Option (Skbuffer M) → Option (ℤ × List ℕ × Option (Skbuffer M))
  unfolding send_locked is_usable skbuffer_lock
  send answers none = some (negsuc 1, [], none)
  send answers (some b) =
      if is_usable b then send_locked answers (locked b) else some (negsuc 1, [], some b)

  -- A question asked under the lock, with its answer where there is no block.
  unfoldable pub asked {ℓ} :
      {A : Type ℓ} → (Skbuffer M → A) → A → Skbuffer M → Option (List ℕ) → A × Option (Skbuffer M)
  unfolding skbuffer_lock skbuffer_unlock
  asked f missing b none = (missing, some b)
  asked f missing b (some mem) = (f (locked b), unlocked (locked b))

  unfoldable pub datasize : Option (Skbuffer M) → ℤ × Option (Skbuffer M)
  unfolding asked
  datasize none = (negsuc 0, none)
  datasize (some b) = asked (λ b. signed32 b.data_size) (negsuc 0) b b.buf

  unfoldable pub empty : Option (Skbuffer M) → Bool × Option (Skbuffer M)
  unfolding asked
  empty none = (true, none)
  empty (some b) = asked (λ b. b.data_size == 0) true b b.buf

  unfoldable pub clear_locked : Skbuffer M → Option (List ℕ) → Option (Skbuffer M)
  unfolding skbuffer_lock skbuffer_unlock
  clear_locked b none = some b
  clear_locked b (some mem) = unlocked (record (locked b) { rpos = 0; wpos = 0; data_size = 0 })

  unfoldable pub clear : Option (Skbuffer M) → Option (Skbuffer M)
  unfolding clear_locked
  clear none = none
  clear (some b) = clear_locked b b.buf

  -- The returned pointer, as an offset into the block.
  unfoldable pub read_pos : Option (Skbuffer M) → Option ℕ × Option (Skbuffer M)
  unfolding asked
  read_pos none = (none, none)
  read_pos (some b) = asked (λ b. some b.rpos) none b b.buf
