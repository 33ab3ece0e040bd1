-- ===== src/Skbuffer/Space.antt =====
-- zbaselib_socket.c, the socket buffer: making room at the end of the block, and bytes put there.
use zbaselib.Prelude.{
  ℕ, ◌+◌, ◌/◌, ◌^◌, ◌≤◌, ◌<◌, ◌≡◌, refl, Option, some, List, ◌++◌, arith, ltb, max, length, ap, ◌∙◌,
  Bool-cases, inl, inr, ◌⊎◌,
}
use zbaselib.Prelude.Block.{splice, length-splice}
use zbaselib.Prelude.Span.{span, span-splice}
use zbaselib.Buffer.Inv.{block_or_nil}
use zbaselib.Skbuffer.Defs.{Skbuffer, min_num}
use zbaselib.Skbuffer.Net.{room, full, make_room}
use zbaselib.Skbuffer.Inv.{IsRealloc, IsValid, contents, length-contents}
use zbaselib.Skbuffer.Room.{Kept, pulled, pull-ok, pulled-Kept, grow-Kept}

module _ {M : Type 0} (c : Skbuffer M) (v : IsValid c) where
  -- The buffer after the bytes `xs` came into its room.
  abbrev pub more : List ℕ → Skbuffer M
  more xs = record c {
    buf = some (splice (block_or_nil c.buf) c.wpos xs);
    wpos = c.wpos + length xs;
    data_size = c.data_size + length xs;
  }

  pub more-IsValid : (xs : List ℕ) → c.wpos + length xs ≤ c.buf_size → IsValid (more xs)
  more-IsValid xs fits = record {
    allocated = refl;
    block_size = ground (arith, v, length-splice (block_or_nil c.buf) c.wpos xs);
    wpos_eq = ground (arith, v);
    wpos_in = fits;
    small = ground (arith, v);
  }

  pub contents-more :
      (xs : List ℕ) → c.wpos + length xs ≤ c.buf_size → contents (more xs) ≡ contents c ++ xs
  unfolding contents
  contents-more xs fits =
      let mem : List ℕ = block_or_nil c.buf in
      ap (λ w. span (splice mem w xs) c.rpos (c.data_size + length xs)) v.wpos_eq
      ∙ span-splice mem xs c.rpos c.data_size (ground (arith, v))

  -- Room is there, or made by a move or by growing; or the buffer is full.
  pub made_room :
      (realloc : List ℕ → ℕ → Option (List ℕ))
      → IsRealloc realloc
      → c.buf_size + c.buf_size / 2 + min_num < 2 ^ 31
      → ((length (contents c) ≡ c.buf_size)
          × (c.buf_max_size < c.buf_size)
          × (make_room realloc c ≡ some (full c)))
        ⊎ ((length (contents c) ≡ c.buf_size → c.buf_size ≤ c.buf_max_size)
            × (d : Skbuffer M) × Kept c d
            × (d.wpos < d.buf_size)
            × (d.buf_size ≤ max c.buf_size (c.buf_max_size + c.buf_max_size / 2 + min_num))
            × (make_room realloc c ≡ some (room d)))
  unfolding make_room
  made_room realloc grows fits =
      let k : Kept c c = record {
        valid = v;
        same_bytes = refl;
        same_count = refl;
        frame = ground arith;
      } in
      let len = length-contents c v in
      elim (Bool-cases (ltb c.wpos c.buf_size)) [
        | inl free ↦
            inr ((λ h. ground (arith, v, len)), c, k, ground arith, omega arith, ground arith)
        | inr end ↦ elim (Bool-cases (ltb 0 c.rpos)) [
          | inl front ↦ inr (
            (λ h. ground (arith, v, len)),
            pulled c v,
            pulled-Kept c v,
            ground (arith, v),
            omega arith,
            ground (arith, pull-ok c v),
          )
          | inr none_read ↦ elim (Bool-cases (ltb c.buf_max_size c.buf_size)) [
            | inl stuck ↦ inl (ground (arith, v, len), ground arith, ground arith)
            | inr below ↦
                let (d, run, kd, cap, w) = grow-Kept c v realloc min_num grows fits in
                inr
                  ((λ h. ground arith), d, kd, ground (arith, v), ground arith, ground (arith, run))
          ]
        ]
      ]
