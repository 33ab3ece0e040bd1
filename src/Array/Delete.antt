-- ===== src/Array/Delete.antt =====
-- zbaselib_array.c: `zbaselib_array_delete` on the list of the elements.
use zbaselib.Prelude.{
  ℕ, zero, suc, ◌+◌, ◌-◌, ◌*◌, ◌/◌, ◌^◌, ◌≤◌, ◌<◌, ◌≡◌, refl, Option, none, some, List, ◌++◌, arith,
  ltb, length, ap, take, drop, get_elem?-take, get_elem?-drop, get_elem?-append, length-append,
  length-take, eq_of_get_elem?, inl, inr, Bool-cases, ◌&&◌,
}
use zbaselib.Prelude.Int.{pos}
use zbaselib.Array.Defs.{
  freed, block, Array, min_num, fit_int, store, reduce, resize, take_block, size_of, expand,
  shift_up, insert_at, realloc, shift_down, delete, insert, append,
}
use zbaselib.Array.Cells.{shift_down-cells}
use zbaselib.Array.Insert.{IsValid, elements}

mul_mono : (e x y : ℕ) → x ≤ y → e * x ≤ e * y
mul_mono e x y h =
    let same : e * y ≡ e * (x + (y - x)) = ap (λ n. e * n) (omega arith) in
    let split : e * (x + (y - x)) ≡ e * x + e * (y - x) = omega arith in omega arith

mul_pos : (x y : ℕ) → 0 < x → 0 < y → 0 < x * y
mul_pos zero y h k = absurd (omega arith)
mul_pos (suc x) zero h k = absurd (omega arith)
mul_pos (suc x) (suc y) h k = omega arith

module _ {A : Type 0} where
  -- The cells after the shift of a deletion.
  shift-elements :
      (mem : List A) (size index : ℕ)
      → size ≤ length mem
      → index < size
      → (mem' : List A) × (shift_down index (size - 1 - index) (block mem) ≡ some (block mem'))
        × (length mem' ≡ length mem)
        × (take (size - 1) mem' ≡ take index (take size mem) ++ drop (suc index) (take size mem))
  shift-elements mem size index room inside =
      let (mem', run, len, cells) = shift_down-cells index (size - 1 - index) mem (omega arith) in
      (
        mem',
        run,
        len,
        eq_of_get_elem? _ _ λ j. ground (
          arith,
          get_elem?-take (size - 1) mem' j,
          cells j,
          get_elem?-append (take index (take size mem)) (drop (suc index) (take size mem)) j,
          length-take index (take size mem),
          length-take size mem,
          get_elem?-take index (take size mem) j,
          get_elem?-take size mem j,
          get_elem?-drop (suc index) (take size mem) (j - index),
          get_elem?-take size mem (suc j),
        ),
      )

  -- The call of realloc in `zbaselib_array_reduce`: to half as many cells again as there are elements.
  shrink-elements :
      (a : Array A) (mem : List A) (more : Option (List A))
      → IsValid a mem
      → 0 < a.size
      → 0 < a.elem_size
      → a.size < a.capacity / 2
      → a.elem_size * a.capacity < 2 ^ 31
      → (a' : Array A) × (mem' : List A) × (resize a (a.size + a.size / 2) more ≡ some a')
        × IsValid a' mem'
        × (a'.size ≡ a.size)
        × (elements a' mem' ≡ elements a mem)
  unfolding resize fit_int take_block realloc
  shrink-elements a mem none v some_left has_size small bytes =
      let p = mul_pos a.elem_size (a.size + a.size / 2) has_size (omega arith) in
      let q = mul_mono a.elem_size (a.size + a.size / 2) a.capacity (omega arith) in
      (
        record a { cells = block mem },
        mem,
        ground (arith, v),
        record {
          allocated = refl;
          block_size = ground (arith, v);
          size_in = ground (arith, v);
          capacity_int = ground (arith, v);
        },
        refl,
        refl,
      )
  shrink-elements a mem (some more) v some_left has_size small bytes =
      let n : ℕ = a.size + a.size / 2 in
      let p = mul_pos a.elem_size n has_size (omega arith) in
      let q = mul_mono a.elem_size n a.capacity (omega arith) in
      let mem' : List A = take n (mem ++ more) in
      (
        record a { cells = block mem'; capacity = n },
        mem',
        ground (arith, v),
        record {
          allocated = refl;
          block_size = ground (arith, v, length-take n (mem ++ more), length-append mem more);
          size_in = omega arith;
          capacity_int = ground (arith, v);
        },
        refl,
        eq_of_get_elem? _ _ λ j. ground (
          arith,
          v,
          get_elem?-take a.size mem' j,
          get_elem?-take n (mem ++ more) j,
          get_elem?-append mem more j,
          get_elem?-take a.size mem j,
        ),
      )

  -- `zbaselib_array_reduce` on an array with elements keeps them, whether realloc succeeds or not.
  reduce-elements :
      (a : Array A) (mem : List A) (more : Option (List A))
      → IsValid a mem
      → 0 < a.size
      → 0 < a.elem_size
      → a.elem_size * a.capacity < 2 ^ 31
      → (a' : Array A) × (mem' : List A) × (reduce a more ≡ some a')
        × IsValid a' mem'
        × (a'.size ≡ a.size)
        × (elements a' mem' ≡ elements a mem)
  unfolding reduce fit_int
  reduce-elements a mem more v some_left has_size bytes =
      elim (Bool-cases (ltb a.size (a.capacity / 2) && ltb min_num a.capacity)) [
        | inr stay ↦ (a, mem, ground (arith, v), v, refl, refl)
        | inl shrink ↦
            let (a', mem', run, v', s, e) =
              shrink-elements a mem more v some_left has_size (ground arith) bytes in
            (a', mem', ground (arith, v), v', s, e)
      ]

  -- `zbaselib_array_delete` at an index below the size of a valid array of at least two elements, which are
  -- of one byte at least and whose block is smaller than 2^31 bytes, answers 0, whatever realloc answers, and takes out the
  -- element at that index; the array stays valid.
  pub delete-elements :
      (a : Array A) (mem : List A) (more : Option (List A)) (index : ℕ)
      → IsValid a mem
      → 1 < a.size
      → 0 < a.elem_size
      → a.elem_size * a.capacity < 2 ^ 31
      → index < a.size
      → (a' : Array A) × (mem' : List A) × (delete (some a) (pos index) more
          ≡ some (pos 0, some a'))
        × IsValid a' mem'
        × (a'.size ≡ a.size - 1)
        × (elements a' mem' ≡ take index (elements a mem) ++ drop (suc index) (elements a mem))
  unfolding delete
  delete-elements a mem more index v two has_size bytes inside =
      let (moved, run, len, now) = shift-elements mem a.size index (ground (arith, v)) inside in
      let b : Array A = record a { cells = block moved; size = a.size - 1 } in
      let (a', mem', cut, v', s, e) =
        reduce-elements b moved more
          (record {
            allocated = refl;
            block_size = ground (arith, v);
            size_in = ground (arith, v);
            capacity_int = ground (arith, v);
          })
          (omega arith) has_size bytes in
      (a', mem', ground (arith, v), v', s, ground arith)

  -- `zbaselib_array_delete` of the only element of an array of more than ten cells answers 0 and
  -- leaves the array with its old capacity and a pointer to the block that realloc has freed, so that
  -- the next append is a fault.
  pub delete-dangles :
      (a : Array A) (mem : List A) (more more' : Option (List A)) (x : A)
      → IsValid a mem
      → a.size ≡ 1
      → 10 < a.capacity
      → (delete (some a) (pos 0) more ≡ some (pos 0, some (record a { size = 0; cells = freed })))
        × (append (some (record a { size = 0; cells = freed })) (some x) more' ≡ none)
  unfolding delete reduce fit_int shift_down resize take_block realloc append insert insert_at
      expand shift_up size_of store
  delete-dangles a mem more more' x v one big =
      let zero_bytes : a.elem_size * 0 ≡ 0 = omega arith in (ground (arith, v), ground (arith, v))
