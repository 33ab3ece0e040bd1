-- ===== src/Skbuffer/Send.antt =====
-- zbaselib_socket.c, the socket buffer: `zbaselib_skbuffer_send` takes the bytes it sent off the queue.
use zbaselib.Prelude.{
  ℕ, ◌≤◌, ◌<◌, ◌≡◌, true, Option, some, List, [], arith, ◌==◌, min, length, take, drop, length-take,
  take-take, ap, ◌∙◌, sym, subst, Bool-cases, inl, inr, ◌⊎◌,
}
use zbaselib.Prelude.Int.{ℤ, pos, negsuc}
use zbaselib.Prelude.Block.{read_at, read_at-ok}
use zbaselib.Prelude.Span.{span, take-span}
use zbaselib.Mutex.Laws.{IsBalanced}
use zbaselib.Buffer.Inv.{block_or_nil}
use zbaselib.Socket.Defs.{SendAnswer, Sent, isvalid, sendn}
use zbaselib.Socket.Laws.{taken, breaks, sendn-handed}
use zbaselib.Skbuffer.Defs.{Skbuffer, consume, skbuffer_lock}
use zbaselib.Skbuffer.Net.{is_usable, chunk, sent, send, send_locked}
use zbaselib.Skbuffer.Inv.{IsValid, SameFrame, contents, length-contents, skbuffer_lock-mutex}
use zbaselib.Skbuffer.Room.{
  Kept, lock-Kept, Served-skbuffer_unlock, Kept-Served, contents-skbuffer_lock,
}
use zbaselib.Skbuffer.Read.{consume-IsValid, consume-SameFrame, contents-consume}

-- What a call of send must give back: this status and these bytes for the system, and a valid buffer
-- that holds `q`.
abbrev pub SentOff :
    {M : Type 0}
    → Skbuffer M
    → ℤ
    → List ℕ
    → List ℕ
    → Option (ℤ × List ℕ × Option (Skbuffer M))
    → Type 0
SentOff {M} b code handed q reply =
    (b' : Skbuffer M) × (reply ≡ some (code, handed, some b'))
    × IsValid b'
    × SameFrame b b'
    × (contents b' ≡ q)

module _ {M : Type 0} (lock unlock : M → ℤ × M) (b : Skbuffer M) (limit : ℕ)
    (balanced : IsBalanced lock unlock) (v : IsValid b) (sndbuf : b.sock_snd_buf_size ≡ pos limit)
    (some_room : 0 < limit) where
  abbrev l : Skbuffer M
  l = skbuffer_lock lock unlock b

  abbrev k : Kept l l
  k = lock-Kept lock unlock b v

  abbrev q : List ℕ
  q = contents b

  abbrev n : ℕ
  n = min limit (length q)

  same_count : l.data_size ≡ length q
  same_count = ground (arith, length-contents b v, skbuffer_lock-mutex lock unlock b)

  chunk_lem : chunk l ≡ n
  unfolding chunk
  chunk_lem =
      let same : l.sock_snd_buf_size ≡ pos limit =
        ground (arith, skbuffer_lock-mutex lock unlock b) in
      ground (arith, same, same_count)

  -- The bytes that are tried.
  tried : read_at (block_or_nil l.buf) l.rpos n ≡ some (take n q)
  unfolding span contents
  tried =
      let mem : List ℕ = block_or_nil l.buf in
      let front : take n (drop l.rpos mem) ≡ take n q =
        sym (take-span mem l.rpos l.data_size n (omega (arith, same_count)))
        ∙ ap (take n) (contents-skbuffer_lock lock unlock b) in
      read_at-ok mem l.rpos n (ground (arith, k.valid, same_count)) ∙ ap some front

  length-tried : length (take n q) ≡ n
  length-tried = ground (arith, length-take n q)

  all_sent :
      (answers : List SendAnswer) (s : Sent)
      → sendn answers (take n q) n ≡ some s
      → s.result ≡ pos n
      → s.handed ≡ take n q
      → 0 < length q
      → SentOff b (pos 0) (take n q) (drop n q) (send_locked lock unlock answers l)
  unfolding send_locked sent
  all_sent answers s run r d ne =
      let le : n ≤ l.data_size = omega (arith, same_count) in
      let (c, e, w, f, g) =
        Served-skbuffer_unlock lock unlock b (consume l n) (pos 0) (drop n q) balanced
          (consume-IsValid l k.valid n le) (consume-SameFrame l k.valid n le)
          (contents-consume l k.valid n le ∙ ap (drop n) (contents-skbuffer_lock lock unlock b)) in
      (c, ground (arith, k.valid, same_count, chunk_lem, tried), w, f, g)

  broken_off :
      (answers : List SendAnswer) (s : Sent) (handed : List ℕ)
      → sendn answers (take n q) n ≡ some s
      → s.result ≡ negsuc 0
      → s.handed ≡ handed
      → 0 < length q
      → SentOff b (negsuc 0) handed q (send_locked lock unlock answers l)
  unfolding send_locked sent
  broken_off answers s handed run r d ne =
      let (c, e, w, f, g) = Kept-Served lock unlock b l (negsuc 0) balanced k in
      (c, ground (arith, k.valid, same_count, chunk_lem, tried), w, f, g)

  nothing_sent :
      (answers : List SendAnswer)
      → length q ≡ 0
      → SentOff b (pos 0) (take n q) (drop n q) (send_locked lock unlock answers l)
  unfolding send_locked
  nothing_sent answers e =
      let (c, run, w, f, g) = Kept-Served lock unlock b l (pos 0) balanced k in
      let n_is : n ≡ 0 = omega arith in
      let no_bytes : take n q ≡ [] = ap (λ i. take i q) n_is in
      let whole : drop n q ≡ q = ap (λ i. drop i q) n_is in
      (c, ground (arith, k.valid, same_count), w, f, ground arith)

  -- The two ends of a call.
  abbrev SentOneWay : List SendAnswer → Option (ℤ × List ℕ × Option (Skbuffer M)) → Type 0
  SentOneWay answers reply =
      ((n ≤ taken answers) × SentOff b (pos 0) (take n q) (drop n q) reply)
      ⊎ ((taken answers < n) × SentOff b (negsuc 0) (take (taken answers) q) q reply)

  send_locked-sendn :
      (answers : List SendAnswer)
      → (n ≤ taken answers) ⊎ ((taken answers < n) × (breaks answers ≡ true))
      → SentOneWay answers (send_locked lock unlock answers l)
  send_locked-sendn answers (inl enough) = elim (Bool-cases (length q == 0)) [
    | inl nothing ↦ inl (enough, nothing_sent answers (ground arith))
    | inr bytes ↦
        let (s, run, ends) =
          sendn-handed answers (take n q) (omega (arith, k.valid, same_count, length-tried))
            (inl (omega (arith, length-tried))) in
        elim ends [
          | inl (_, r, d) ↦ inl (
            enough,
            all_sent answers s (ground (arith, length-tried)) (ground (arith, length-tried)) d
                (ground arith),
          )
          | inr (short, _, _) ↦ absurd (omega (arith, length-tried))
        ]
  ]
  send_locked-sendn answers (inr (short, broken)) =
      let (s, run, ends) =
        sendn-handed answers (take n q) (omega (arith, k.valid, same_count, length-tried))
          (inr (omega (arith, length-tried), broken)) in
      elim ends [
        | inl (enough, _, _) ↦ absurd (omega (arith, length-tried))
        | inr (_, r, d) ↦ inr (
          short,
          broken_off answers s (take (taken answers) q) (ground (arith, length-tried)) r
              (d ∙ take-take (taken answers) n q (omega arith)) (omega arith),
        )
      ]

-- `zbaselib_skbuffer_send` of a valid buffer of a valid socket, whose send size is positive, tries the
-- first n of the bytes it holds, where n is the smaller of the send size and their number. If the system
-- takes n bytes in the end, all n are handed over in order, they are off the queue, and the status is 0,
-- also where n is 0. If the connection breaks before, the status is -1, and the buffer still holds all
-- bytes, also the ones the system has taken. The buffer stays valid, and the mutex is released.
pub send-sendn :
    {M : Type 0} (lock unlock : M → ℤ × M) (answers : List SendAnswer) (b : Skbuffer M)
    (fd limit : ℕ)
    → IsBalanced lock unlock
    → IsValid b
    → b.sock ≡ pos fd
    → b.sock_snd_buf_size ≡ pos limit
    → 0 < limit
    → let n = min limit (length (contents b)) in
      (n ≤ taken answers) ⊎ ((taken answers < n) × (breaks answers ≡ true))
      → let q = contents b in
        let reply = send lock unlock answers (some b) in
        ((n ≤ taken answers) × SentOff b (pos 0) (take n q) (drop n q) reply)
        ⊎ ((taken answers < n) × SentOff b (negsuc 0) (take (taken answers) q) q reply)
unfolding send is_usable isvalid
send-sendn lock unlock answers b fd limit balanced v sock sndbuf some_room h =
    subst (λ reply. SentOneWay lock unlock b limit balanced v sndbuf some_room answers reply)
      (ground (arith, v))
      (send_locked-sendn lock unlock b limit balanced v sndbuf some_room answers h)
