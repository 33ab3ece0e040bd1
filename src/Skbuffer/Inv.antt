-- ===== src/Skbuffer/Inv.antt =====
-- zbaselib_socket.c, the socket buffer: what it promises, its invariant and the bytes it holds.
use zbaselib.Prelude.{
  ℕ, ◌+◌, ◌^◌, ◌≤◌, ◌<◌, ◌≡◌, sym, subst, ◌||◌, Option, some, List, ◌++◌, arith, leb, if◌then◌else◌,
  length, take,
}
use zbaselib.Prelude.Int.{ℤ, pos, negsuc}
use zbaselib.Prelude.Span.{span, length-span}
use zbaselib.Mutex.Laws.{IsBalanced, mutex_unlock-mutex_lock}
use zbaselib.Buffer.Inv.{block_or_nil}
use zbaselib.Skbuffer.Defs.{Skbuffer, Reply, skbuffer_lock, skbuffer_unlock}

-- A queue of bytes with a block of `cap`, which may grow as long as that is at most `max`, takes a run
-- of bytes whole or not at all.
unfoldable pub put : (cap max : ℕ) → List ℕ → List ℕ → ℤ × List ℕ
put cap max q xs =
    if leb (length q + length xs) cap || leb cap max then (pos 0, q ++ xs) else (negsuc 1, q)

-- What realloc promises when it grows a block: a block of the new size with the old bytes in front.
abbrev pub IsRealloc : (List ℕ → ℕ → Option (List ℕ)) → Type 0
IsRealloc realloc =
    (mem : List ℕ) (n : ℕ)
    → length mem ≤ n
    → n < 2 ^ 31
    → (mem' : List ℕ) × (realloc mem n ≡ some mem')
      × (length mem' ≡ n)
      × (take (length mem) mem' ≡ mem)

pub record IsValid {M : Type 0} (b : Skbuffer M) : Type 0 where
  pub allocated : b.buf ≡ some (block_or_nil b.buf)
  pub block_size : length (block_or_nil b.buf) ≡ b.buf_size
  pub wpos_eq : b.wpos ≡ b.rpos + b.data_size
  pub wpos_in : b.wpos ≤ b.buf_size
  pub small : b.buf_size < 2 ^ 31

-- The bytes written and not yet read, oldest first.
unfoldable pub contents : {M : Type 0} → Skbuffer M → List ℕ
contents b = span (block_or_nil b.buf) b.rpos b.data_size

-- What no call changes.
pub record SameFrame {M : Type 0} (b b' : Skbuffer M) : Type 0 where
  pub same_sock : b'.sock ≡ b.sock
  pub same_islock : b'.islock ≡ b.islock
  pub same_mutex : b'.mutex ≡ b.mutex
  pub same_max : b'.buf_max_size ≡ b.buf_max_size
  pub same_snd : b'.sock_snd_buf_size ≡ b.sock_snd_buf_size

-- What a call must give back: this status, and a valid buffer that holds `q` in the same frame.
abbrev pub Served : {M : Type 0} → Skbuffer M → ℤ → List ℕ → Reply M → Type 0
Served {M} b code q reply =
    (b' : Skbuffer M) × (reply ≡ some (code, some b'))
    × IsValid b'
    × SameFrame b b'
    × (contents b' ≡ q)

-- The same reply to the same question.
pub Served-eq :
    {M : Type 0} (b : Skbuffer M) (r r' : ℤ × List ℕ) (reply reply' : Reply M)
    → r ≡ r'
    → reply ≡ reply'
    → Served b r'.0 r'.1 reply'
    → Served b r.0 r.1 reply
Served-eq b r r' reply reply' e e' s =
    subst (λ (r : ℤ × List ℕ). Served b r.0 r.1 reply) (sym e)
      (subst (λ reply. Served b r'.0 r'.1 reply) (sym e') s)

module _ {M : Type 0} where
  pub length-contents : (b : Skbuffer M) → IsValid b → length (contents b) ≡ b.data_size
  unfolding contents
  length-contents b v = ground (arith, v, length-span (block_or_nil b.buf) b.rpos b.data_size)

module _ {M : Type 0} (lock unlock : M → ℤ × M) where
  -- The lock changes nothing but the mutex.
  pub skbuffer_lock-mutex :
      (b : Skbuffer M)
      → skbuffer_lock lock unlock b ≡ record b { mutex = (skbuffer_lock lock unlock b).mutex }
  unfolding skbuffer_lock
  skbuffer_lock-mutex b = ground arith

  -- After the body of a call, which leaves flag and mutex alone, the mutex is as before the call.
  pub skbuffer_unlock-skbuffer_lock :
      (b c : Skbuffer M)
      → IsBalanced lock unlock
      → c.islock ≡ b.islock
      → c.mutex ≡ (skbuffer_lock lock unlock b).mutex
      → skbuffer_unlock lock unlock c ≡ record c { mutex = b.mutex }
  unfolding skbuffer_lock skbuffer_unlock
  skbuffer_unlock-skbuffer_lock b c balanced same locked =
      ground (arith, mutex_unlock-mutex_lock lock unlock balanced b.mutex)
