-- ===== src/Buffer/Inv.antt =====
-- zbaselib_buffer.c: the invariant of a ring, the bytes it holds, and the effect of its lock.
use zbaselib.Prelude.{
  ℕ, ◌+◌, ◌-◌, ◌^◌, ◌≤◌, ◌<◌, ◌≡◌, refl, true, Option, none, some, List, [], arith, ltb,
  if◌then◌else◌, length, length-replicate,
}
use zbaselib.Prelude.Int.{ℤ}
use zbaselib.Prelude.Window.{window, length-window}
use zbaselib.Buffer.Defs.{Buffer, Reply, ReadReply, create}

abbrev pub block_or_nil : Option (List ℕ) → List ℕ
block_or_nil none = []
block_or_nil (some mem) = mem

-- A size of at most 2^31 keeps `wpos + data_len` below 2^32.
pub record IsValid {M : Type 0} (b : Buffer M) : Type 0 where
  pub allocated : b.buffer ≡ some (block_or_nil b.buffer)
  pub block_size : length (block_or_nil b.buffer) ≡ b.buffer_size
  pub small : b.buffer_size ≤ 2 ^ 31
  pub rpos_in : b.rpos < b.buffer_size
  pub busy_in : b.busy_num ≤ b.buffer_size
  pub wpos_behind : b.wpos ≡ (
      if ltb (b.rpos + b.busy_num) b.buffer_size
      then b.rpos + b.busy_num
      else b.rpos + b.busy_num - b.buffer_size)

-- The bytes written and not yet read, oldest first.
unfoldable pub contents : {M : Type 0} → Buffer M → List ℕ
contents b = window (block_or_nil b.buffer) b.rpos b.busy_num

-- What no call changes: the size, the lock flag and, once the call is over, the mutex.
pub record SameFrame {M : Type 0} (b b' : Buffer M) : Type 0 where
  pub same_size : b'.buffer_size ≡ b.buffer_size
  pub same_islock : b'.islock ≡ b.islock
  pub same_mutex : b'.mutex ≡ b.mutex

module _ {M : Type 0} where
  pub length-contents : (b : Buffer M) → IsValid b → length (contents b) ≡ b.busy_num
  unfolding contents
  length-contents b v = ground (arith, length-window (block_or_nil b.buffer) b.rpos b.busy_num)

-- `zbaselib_buffer_create` of a size from 1 to 2^31, where both allocations succeed, gives a valid ring
-- with no bytes in it, whether or not there is to be a mutex and whether or not it can be made.
create-IsValid :
    {M : Type 0} (new_mutex : Option M) (size : ℕ) (islock : ℤ)
    → 0 < size
    → size ≤ 2 ^ 31
    → (b : Buffer M) × (create true true new_mutex size islock ≡ some b)
      × IsValid b
      × (contents b ≡ [])
unfolding create contents window
create-IsValid new_mutex size islock pos small =
    (_, refl, ground (arith, length-replicate size (let z : ℕ = 0 in z)), refl)

-- What a call must give back: this status, and a valid ring that holds `q` in the same frame.
abbrev pub Served : {M : Type 0} → Buffer M → ℤ → List ℕ → Reply M → Type 0
Served {M} b code q reply =
    (b' : Buffer M) × (reply ≡ some (code, some b'))
    × IsValid b'
    × SameFrame b b'
    × (contents b' ≡ q)

-- The same for a call that also leaves `out` in `*rdata`.
abbrev pub ServedRead : {M : Type 0} → Buffer M → ℤ → List ℕ → List ℕ → ReadReply M → Type 0
ServedRead {M} b code q out reply =
    (b' : Buffer M) × (reply ≡ some (code, some out, some b'))
    × IsValid b'
    × SameFrame b b'
    × (contents b' ≡ q)
