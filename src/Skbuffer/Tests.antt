-- ===== src/Skbuffer/Tests.antt =====
-- Runs of the socket buffer on a block of four bytes that holds two of them.
use zbaselib.Prelude.{
  ℕ, zero, suc, ◌-◌, ◌≤◌, ◌<◌, ◌≡◌, ◌⊎◌, refl, true, false, some, Option, List, [], ◌∷◌, ◌++◌,
  arith, length, min, take, drop, length-append, length-replicate, take-append_exact, inl,
}
use zbaselib.Prelude.Lists.{replicate}
use zbaselib.Prelude.Int.{ℤ, pos, negsuc}
use zbaselib.Prelude.Block.{read_at}
use zbaselib.Prelude.Span.{span}
use zbaselib.Mutex.Defs.{mutex_lock, mutex_unlock}
use zbaselib.Mutex.Laws.{IsBalanced}
use zbaselib.Buffer.Inv.{block_or_nil}
use zbaselib.Socket.Defs.{SendAnswer, wrote, refused, RecvAnswer, arrived, failed, sendn}
use zbaselib.Socket.Laws.{taken}
use zbaselib.Skbuffer.Defs.{Skbuffer, write, read, get, skip}
use zbaselib.Skbuffer.Net.{recv, udp_recv, send, datasize, empty, clear, read_pos}
use zbaselib.Skbuffer.Inv.{IsRealloc, IsValid, SameFrame, Served, contents, put}
use zbaselib.Skbuffer.Write.{write-skbuffer_put}
use zbaselib.Skbuffer.Read.{reads-contents}
use zbaselib.Skbuffer.Recv.{IsBounded, take_in, recv-take_in}
use zbaselib.Skbuffer.Drain.{IsEnding, last, before, Drained, udp_recv-Drained}
use zbaselib.Skbuffer.Send.{SentOff, send-sendn}
use zbaselib.Skbuffer.Ask.{asks-contents}

-- A mutex as the number of its holders.
abbrev lock : ℕ → ℤ × ℕ
lock m = (pos 0, suc m)

abbrev unlock : ℕ → ℤ × ℕ
unlock zero = (pos 1, zero)
unlock (suc m) = (pos 0, m)

balanced : IsBalanced lock unlock
balanced m = refl

-- A realloc that fills the new bytes with zeros.
abbrev realloc : List ℕ → ℕ → Option (List ℕ)
realloc mem n = some (mem ++ replicate (n - length mem) 0)

realloc-IsRealloc : IsRealloc realloc
realloc-IsRealloc mem n le small =
    let zeros : List ℕ = replicate (n - length mem) 0 in
    let len : length zeros ≡ n - length mem = length-replicate (n - length mem) 0 in
    (mem ++ zeros, refl, omega (arith, len, length-append mem zeros), take-append_exact mem zeros)

abbrev sample : Skbuffer ℕ
sample = record {
  sock = pos 5;
  islock = pos 1;
  mutex = some 0;
  buf = some (10 ∷ 20 ∷ 30 ∷ 40 ∷ []);
  buf_size = 4;
  buf_max_size = 16;
  data_size = 2;
  rpos = 1;
  wpos = 3;
  sock_snd_buf_size = pos 4096;
}

sample-IsValid : IsValid sample
sample-IsValid = record {
  allocated = refl;
  block_size = refl;
  wpos_eq = refl;
  wpos_in = omega arith;
  small = omega arith;
}

-- The two bytes go to the end after a move to the front.
write-skbuffer_put_example :
    Served sample
      (pos 0)
      (20 ∷ 30 ∷ 7 ∷ 8 ∷ [])
      (write lock unlock realloc (some sample) (some (7 ∷ 8 ∷ [])) 2)
unfolding put contents span
write-skbuffer_put_example =
    write-skbuffer_put lock unlock realloc sample (7 ∷ 8 ∷ []) 2 balanced realloc-IsRealloc
      sample-IsValid (omega arith) (omega arith)

reads-contents_example :
    ((b' : Skbuffer ℕ) × (read lock unlock (some sample) (some (0 ∷ 0 ∷ [])) 1
        ≡ some (pos 1, some (20 ∷ 0 ∷ []), some b'))
      × IsValid b'
      × SameFrame sample b'
      × (contents b' ≡ 30 ∷ []))
    × (get lock unlock (some sample) (some (0 ∷ 0 ∷ [])) 1
        ≡ some (pos 1, some (20 ∷ 0 ∷ []), some sample))
    × Served sample (pos 1) (30 ∷ []) (some (skip lock unlock (some sample) 1))
unfolding contents span
reads-contents_example =
    reads-contents lock unlock sample (0 ∷ 0 ∷ []) 1 balanced sample-IsValid (omega arith)

-- A system that gives one byte, or none where it is asked for none.
abbrev one_byte : ℕ → RecvAnswer
one_byte zero = arrived []
one_byte (suc n) = arrived (7 ∷ [])

one_byte-IsBounded : IsBounded one_byte
one_byte-IsBounded zero xs e = ground (arith, e)
one_byte-IsBounded (suc n) xs e = ground (arith, e)

recv-take_in_example :
    let q = contents sample in
    let reply = recv lock unlock realloc one_byte (some sample) in
    ((length q ≡ 4) × (16 < 4) × Served sample (negsuc 2) q reply)
    ⊎ ((length q ≡ 4 → 4 ≤ 16)
        × (n : ℕ) × (0 < n)
        × let (status, queue) = take_in (one_byte n) q in Served sample status queue reply)
recv-take_in_example =
    recv-take_in lock unlock realloc one_byte sample 5 balanced realloc-IsRealloc one_byte-IsBounded
      sample-IsValid refl (omega arith)

abbrev then_nothing : List (ℕ → RecvAnswer)
then_nothing = one_byte ∷ (λ n. failed true) ∷ []

then_nothing-IsEnding : IsEnding then_nothing
then_nothing-IsEnding = before one_byte-IsBounded (last λ n x xs e. cc)

udp_recv-Drained_example :
    (status : ℤ) × (q : List ℕ) × Drained 16 then_nothing (contents sample) status q
    × Served sample status q (udp_recv lock unlock realloc then_nothing (some sample))
udp_recv-Drained_example =
    udp_recv-Drained lock unlock realloc then_nothing sample 5 balanced realloc-IsRealloc
      then_nothing-IsEnding sample-IsValid refl (omega arith)

abbrev answers : List SendAnswer
answers = wrote 1 ∷ refused true ∷ wrote 1 ∷ []

answers_enough : min 4096 (length (contents sample)) ≤ taken answers
unfolding taken contents span
answers_enough = omega arith

send-sendn_example :
    let q = contents sample in
    let n = min 4096 (length q) in
    let reply = send lock unlock answers (some sample) in
    ((n ≤ taken answers) × SentOff sample (pos 0) (take n q) (drop n q) reply)
    ⊎ ((taken answers < n) × SentOff sample (negsuc 0) (take (taken answers) q) q reply)
send-sendn_example =
    send-sendn lock unlock answers sample 5 4096 balanced sample-IsValid refl refl (omega arith)
      (inl answers_enough)

asks-contents_example :
    (datasize lock unlock (some sample) ≡ (pos 2, some sample))
    × (empty lock unlock (some sample) ≡ (false, some sample))
    × ((off : ℕ) × (read_pos lock unlock (some sample) ≡ (some off, some sample))
        × (read_at (block_or_nil sample.buf) off 2 ≡ some (20 ∷ 30 ∷ [])))
    × ((b' : Skbuffer ℕ) × (clear lock unlock (some sample) ≡ some b')
        × IsValid b'
        × SameFrame sample b'
        × (contents b' ≡ []))
unfolding contents span
asks-contents_example = asks-contents lock unlock sample balanced sample-IsValid

-- A part that the connection takes before it breaks stays in the buffer.
broken_off :
    send lock unlock (wrote 1 ∷ refused false ∷ []) (some sample)
    ≡ some (negsuc 0, 20 ∷ [], some sample)
unfolding send sendn read_at mutex_lock mutex_unlock
broken_off = refl
