-- ===== src/Buffer/Status.antt =====
-- zbaselib_buffer.c: the questions about a ring, and `zbaselib_buffer_clear`. A function that takes
-- the lock before it tests its argument faults on NULL, which is `none`.
use zbaselib.Prelude.{ℕ, ◌^◌, ◌-◌, Bool, Option, none, some, List, ◌>>=◌, ◌==◌, false}
use zbaselib.Prelude.Int.{ℤ}
use zbaselib.Buffer.Defs.{Buffer, zbuffer_lock, zbuffer_unlock}

-- `thiz->buffer != NULL && test`
unfoldable pub with_block : Option (List ℕ) → Bool → Bool
with_block none test = false
with_block (some mem) test = test

-- `(char*) thiz->buffer + pos`, as the offset in the block
unfoldable pub offset_of : Option (List ℕ) → ℕ → Option ℕ
offset_of none position = none
offset_of (some mem) position = some position

module _ {M : Type 0} (pthread_mutex_lock pthread_mutex_unlock : M → ℤ × M) where
  -- What is asked under the lock, and the ring after it.
  unfoldable pub ask {ℓ} : {A : Type ℓ} → (Buffer M → A) → Buffer M → A × Buffer M
  ask f thiz =
      let b = zbuffer_lock pthread_mutex_lock pthread_mutex_unlock thiz in
      (f b, zbuffer_unlock pthread_mutex_lock pthread_mutex_unlock b)

  unfoldable pub busynum_checked : Buffer M → Option (List ℕ) → ℕ × Option (Buffer M)
  unfolding ask
  busynum_checked thiz none = (2 ^ 32 - 1, some thiz)
  busynum_checked thiz (some mem) = let (n, b) = ask (λ b. b.busy_num) thiz in (n, some b)

  -- `return -1` from a function of type `unsigned int` is 2^32 - 1.
  unfoldable pub busynum : Option (Buffer M) → ℕ × Option (Buffer M)
  unfolding busynum_checked
  busynum none = (2 ^ 32 - 1, none)
  busynum (some thiz) = busynum_checked thiz thiz.buffer

  unfoldable pub isempty : Option (Buffer M) → Option (Bool × Buffer M)
  unfolding ask with_block
  isempty thiz = do b ← thiz; some (ask (λ b. with_block b.buffer (b.busy_num == 0)) b)

  unfoldable pub isfull : Option (Buffer M) → Option (Bool × Buffer M)
  unfolding ask with_block
  isfull thiz = do b ← thiz; some (ask (λ b. with_block b.buffer (b.busy_num == b.buffer_size)) b)

  unfoldable pub clear_locked : Buffer M → Option (List ℕ) → Buffer M
  clear_locked b none = zbuffer_unlock pthread_mutex_lock pthread_mutex_unlock b
  clear_locked b (some mem) =
      zbuffer_unlock pthread_mutex_lock pthread_mutex_unlock
        (record b { wpos = 0; rpos = 0; busy_num = 0 })

  unfoldable pub clear : Option (Buffer M) → Option (Buffer M)
  unfolding clear_locked
  clear thiz = do
    b ← thiz
    some (clear_locked (zbuffer_lock pthread_mutex_lock pthread_mutex_unlock b) b.buffer)

module _ {M : Type 0} where
  unfoldable pub get_readpos : Option (Buffer M) → Option ℕ
  unfolding offset_of
  get_readpos none = none
  get_readpos (some thiz) = offset_of thiz.buffer thiz.rpos

  unfoldable pub get_writepos : Option (Buffer M) → Option ℕ
  unfolding offset_of
  get_writepos none = none
  get_writepos (some thiz) = offset_of thiz.buffer thiz.wpos
