-- ===== src/Buffer/Copy.antt =====
-- zbaselib_buffer.c: the copy out of a ring and the move of its read position.
use native.Mathlib.Decide.{dec_le}
use zbaselib.Prelude.{
  ℕ, ◌+◌, ◌-◌, ◌≤◌, ◌≡◌, ap, some, List, ◌++◌, arith, length, take, drop, length-take, length-drop,
}
use zbaselib.Prelude.Int.{ℤ}
use zbaselib.Prelude.Block.{splice, read_at-ok, write_at-ok, length-splice, splice-splice}
use zbaselib.Prelude.Window.{take-window, take-window_round, drop-window}
use zbaselib.Buffer.Defs.{Buffer, copy_out, advance}
use zbaselib.Buffer.Inv.{IsValid, contents, block_or_nil}

module _ {M : Type 0} (lock unlock : M → ℤ × M) (b : Buffer M) (n : ℕ) (v : IsValid b)
    (held : n ≤ b.busy_num) where
  -- The copy puts the front of the contents over the front of `*rdata`.
  pub copy_out-contents :
      (rdata : List ℕ)
      → n ≤ length rdata
      → copy_out lock unlock b (block_or_nil b.buffer) rdata n
        ≡ some (splice rdata 0 (take n (contents b)))
  unfolding copy_out contents
  copy_out-contents rdata room =
      let mem : List ℕ = block_or_nil b.buffer in
      let head : ℕ = b.buffer_size - b.rpos in
      let rest : ℕ = n + b.rpos - b.buffer_size in
      let first : List ℕ = take head (drop b.rpos mem) in
      elim (dec_le (b.rpos + n) b.buffer_size) [
        | yes h ↦ ground (
          arith,
          v,
          read_at-ok mem b.rpos n,
          write_at-ok rdata 0 (take n (drop b.rpos mem)),
          length-take n (drop b.rpos mem),
          take-window mem b.rpos b.busy_num n,
        )
        | no h ↦ ground (
          arith,
          v,
          read_at-ok mem b.rpos head,
          write_at-ok rdata 0 first,
          read_at-ok mem 0 rest,
          write_at-ok (splice rdata 0 first) head (take rest mem),
          length-take head (drop b.rpos mem),
          length-drop b.rpos mem,
          length-take rest mem,
          length-splice rdata 0 first,
          splice-splice rdata first (take rest mem),
          take-window_round mem b.rpos b.busy_num n,
        )
      ]

  pub advance-IsValid : IsValid (advance lock unlock b n)
  unfolding advance
  advance-IsValid = ground (arith, v)

  pub contents-advance : contents (advance lock unlock b n) ≡ drop n (contents b)
  unfolding advance contents
  contents-advance = ground (
    arith,
    v,
    drop-window (block_or_nil b.buffer) b.rpos b.busy_num n (advance lock unlock b n).rpos,
  )

pub splice_front : (mem xs : List ℕ) (n : ℕ) → length xs ≡ n → splice mem 0 xs ≡ xs ++ drop n mem
unfolding splice
splice_front mem xs n e = ap (λ k. xs ++ drop k mem) (omega arith)
