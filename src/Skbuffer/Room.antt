-- ===== src/Skbuffer/Room.antt =====
-- zbaselib_socket.c, the socket buffer: moving the bytes to the front and growing the block keep the bytes.
use zbaselib.Prelude.{
  ℕ, ◌+◌, ◌/◌, ◌^◌, ◌<◌, ◌≡◌, refl, Option, some, List, arith, length, take, drop, take_all, ap,
  ◌∙◌, sym,
}
use zbaselib.Prelude.Int.{ℤ}
use zbaselib.Prelude.Block.{splice, read_at-ok, write_at-ok, length-splice}
use zbaselib.Prelude.Span.{span, length-span, span-moved, span_of_front}
use zbaselib.Buffer.Inv.{block_or_nil}
use zbaselib.Skbuffer.Defs.{Skbuffer, pull, grow, skbuffer_lock, skbuffer_unlock}
use zbaselib.Skbuffer.Inv.{
  IsRealloc, IsValid, SameFrame, Served, contents, skbuffer_lock-mutex,
  skbuffer_unlock-skbuffer_lock,
}
use zbaselib.Mutex.Laws.{IsBalanced}

-- The same bytes, in the same frame.
pub record Kept {M : Type 0} (b b' : Skbuffer M) : Type 0 where
  pub valid : IsValid b'
  pub same_bytes : contents b' ≡ contents b
  pub same_count : b'.data_size ≡ b.data_size
  pub frame : SameFrame b b'

module _ {M : Type 0} (b : Skbuffer M) (v : IsValid b) where
  abbrev mem : List ℕ
  mem = block_or_nil b.buf

  abbrev pub pulled : Skbuffer M
  pulled = record b {
    buf = some (splice mem 0 (span mem b.rpos b.data_size));
    wpos = b.data_size;
    rpos = 0;
  }

  pub pull-ok : pull b ≡ some pulled
  unfolding pull span
  pull-ok = ground (
    arith,
    v,
    read_at-ok mem b.rpos b.data_size,
    write_at-ok mem 0 (take b.data_size (drop b.rpos mem)),
    length-span mem b.rpos b.data_size,
  )

  pub pulled-Kept : Kept b pulled
  unfolding contents
  pulled-Kept = record {
    valid = record {
      allocated = refl;
      block_size = ground (
        arith,
        v,
        length-splice mem 0 (span mem b.rpos b.data_size),
        length-span mem b.rpos b.data_size,
      );
      wpos_eq = omega arith;
      wpos_in = ground (arith, v);
      small = ground (arith, v);
    };
    same_bytes = span-moved mem b.rpos b.data_size (ground (arith, v));
    same_count = refl;
    frame = ground arith;
  }

  pub grow-Kept :
      (realloc : List ℕ → ℕ → Option (List ℕ)) (extra : ℕ)
      → IsRealloc realloc
      → b.buf_size + b.buf_size / 2 + extra < 2 ^ 31
      → (b' : Skbuffer M) × (grow realloc b extra ≡ some b')
        × Kept b b'
        × (b'.buf_size ≡ b.buf_size + b.buf_size / 2 + extra)
        × (b'.wpos ≡ b.wpos)
  unfolding grow contents
  grow-Kept realloc extra grows fits =
      let size : ℕ = b.buf_size + b.buf_size / 2 + extra in
      let (mem', got, len, front) = grows mem size (ground (arith, v)) fits in
      let front' : take (length mem) mem' ≡ take (length mem) mem =
        front ∙ sym (take_all (length mem) mem (omega arith)) in
      (
        record b { buf = some mem'; buf_size = size },
        ground (arith, v),
        record {
          valid = record {
            allocated = refl;
            block_size = len;
            wpos_eq = ground (arith, v);
            wpos_in = ground (arith, v);
            small = fits;
          };
          same_bytes =
              span_of_front mem mem' b.rpos b.data_size (length mem) front' (ground (arith, v));
          same_count = refl;
          frame = ground arith;
        },
        refl,
        refl,
      )

pub Kept-Kept : {M : Type 0} {a b c : Skbuffer M} → Kept a b → Kept b c → Kept a c
Kept-Kept k l = record {
  valid = l.valid;
  same_bytes = l.same_bytes ∙ k.same_bytes;
  same_count = l.same_count ∙ k.same_count;
  frame = ground (arith, k.frame, l.frame);
}

pub contents-mutex :
    {M : Type 0} (c : Skbuffer M) (m : Option M) → contents (record c { mutex = m }) ≡ contents c
unfolding contents
contents-mutex c m = refl

module _ {M : Type 0} (lock unlock : M → ℤ × M) (b : Skbuffer M) where
  pub contents-skbuffer_lock : contents (skbuffer_lock lock unlock b) ≡ contents b
  contents-skbuffer_lock =
      ap contents (skbuffer_lock-mutex lock unlock b)
      ∙ contents-mutex b (skbuffer_lock lock unlock b).mutex

  pub lock-Kept : IsValid b → Kept (skbuffer_lock lock unlock b) (skbuffer_lock lock unlock b)
  lock-Kept v = record {
    valid = ground (arith, v, skbuffer_lock-mutex lock unlock b);
    same_bytes = refl;
    same_count = refl;
    frame = ground arith;
  }

  -- A call that ends with the valid buffer `c`, in the frame of the locked one.
  pub Served-skbuffer_unlock :
      (c : Skbuffer M) (code : ℤ) (q : List ℕ)
      → IsBalanced lock unlock
      → IsValid c
      → SameFrame (skbuffer_lock lock unlock b) c
      → contents c ≡ q
      → Served b code q (some (code, some (skbuffer_unlock lock unlock c)))
  Served-skbuffer_unlock c code q balanced v frame e = (
    record c { mutex = b.mutex },
    ground (
      arith,
      frame,
      skbuffer_lock-mutex lock unlock b,
      skbuffer_unlock-skbuffer_lock lock unlock b c balanced,
    ),
    ground (arith, v),
    ground (arith, frame, skbuffer_lock-mutex lock unlock b),
    contents-mutex c b.mutex ∙ e,
  )

  -- A call that ends with a buffer of the same bytes.
  pub Kept-Served :
      (c : Skbuffer M) (code : ℤ)
      → IsBalanced lock unlock
      → Kept (skbuffer_lock lock unlock b) c
      → Served b code (contents b) (some (code, some (skbuffer_unlock lock unlock c)))
  Kept-Served c code balanced k =
      Served-skbuffer_unlock c code (contents b) balanced k.valid k.frame
        (k.same_bytes ∙ contents-skbuffer_lock)
