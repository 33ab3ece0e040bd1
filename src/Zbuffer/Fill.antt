-- ===== src/Zbuffer/Fill.antt =====
-- zbaselib_buffer.c, `zbuffer_t`: `zbuffer_new` and `zbuffer_set` keep the block large enough and
-- put the given bytes in front.
use zbaselib.Prelude.{
  ℕ, ◌-◌, ◌≤◌, ◌≡◌, refl, true, some, List, ◌++◌, arith, if◌then◌else◌, ltb, length, take,
  replicate, length-replicate, length-append, length-take, max,
}
use zbaselib.Prelude.Int.{pos}
use zbaselib.Prelude.Block.{splice, read_at-ok, write_at-ok, length-splice, take-splice_front}
use zbaselib.Zbuffer.{Zbuffer, copy_to, zbuffer_new, zbuffer_set, Holds}

copy_to-front :
    (mem source : List ℕ) (n : ℕ)
    → n ≤ length source
    → n ≤ length mem
    → copy_to (some mem) (some source) (pos n) ≡ some (some (splice mem 0 (take n source)))
unfolding copy_to
copy_to-front mem source n hs hm =
    ground (arith, read_at-ok source 0 n, write_at-ok mem 0 (take n source), length-take n source)

-- `zbuffer_new` of n bytes, where the allocations succeed, gives a block of the largest of 1, n and the
-- asked number of cells, with the bytes in front.
zbuffer_new-Holds :
    (source : List ℕ) (n size : ℕ)
    → n ≤ length source
    → (z : Zbuffer) × (zbuffer_new true true (some source) (pos n) (pos size) ≡ some (some z))
      × Holds z (max n (max 1 size)) (take n source)
unfolding zbuffer_new
zbuffer_new-Holds source n size h =
    let cells : ℕ = max n (max 1 size) in
    let fresh : List ℕ = replicate cells 0 in
    (
      record {
        buf = some (splice fresh 0 (take n source));
        data_size = pos n;
        buf_size = pos cells;
      },
      ground (arith, copy_to-front fresh source n, length-replicate cells (let z : ℕ = 0 in z)),
      record {
        block = splice fresh 0 (take n source);
        allocated = refl;
        block_size = ground (
          arith,
          length-splice fresh 0 (take n source),
          length-take n source,
          length-replicate cells (let z : ℕ = 0 in z),
        );
        buf_size_eq = refl;
        data_size_eq = ground (arith, length-take n source);
        in_front = take-splice_front fresh (take n source);
      },
    )

-- `zbuffer_set` of n bytes, where realloc succeeds if it is needed, leaves a block that is as large
-- as before and at least n, with the new bytes in front.
zbuffer_set-Holds :
    (z : Zbuffer) (tail source old : List ℕ) (n size : ℕ)
    → Holds z size old
    → length tail ≡ n - size
    → n ≤ length source
    → (z' : Zbuffer) × (zbuffer_set (some z) (some tail) (some source) (pos n)
        ≡ some (pos 0, some z'))
      × Holds z' (max n size) (take n source)
unfolding zbuffer_set
zbuffer_set-Holds z tail source old n size hz ht hs =
    let mem : List ℕ = if ltb size n then hz.block ++ tail else hz.block in
    (
      record {
        buf = some (splice mem 0 (take n source));
        data_size = pos n;
        buf_size = pos (max n size);
      },
      ground (arith, hz, copy_to-front mem source n, length-append hz.block tail),
      record {
        block = splice mem 0 (take n source);
        allocated = refl;
        block_size = ground (
          arith,
          hz,
          length-splice mem 0 (take n source),
          length-take n source,
          length-append hz.block tail,
        );
        buf_size_eq = refl;
        data_size_eq = ground (arith, length-take n source);
        in_front = take-splice_front mem (take n source);
      },
    )
