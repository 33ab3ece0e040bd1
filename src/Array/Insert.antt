-- ===== src/Array/Insert.antt =====
-- zbaselib_array.c: `zbaselib_array_insert` and `_append` on the list of the elements.
use zbaselib.Prelude.{
  ℕ, ◌+◌, ◌-◌, ◌*◌, ◌/◌, ◌^◌, ◌≤◌, ◌<◌, ◌≡◌, refl, true, none, some, List, [], ◌∷◌, ◌++◌, arith,
  ltb, if◌then◌else◌, length, get_elem?, take, drop, get_elem?-take, get_elem?-drop,
  get_elem?-append, length-append, length-take, eq_of_get_elem?, get_elem?_cons, take_all, drop_all,
  inl, inr, Bool-cases,
}
use zbaselib.Prelude.Int.{pos}
use zbaselib.Array.Defs.{
  block, Array, min_num, fit_int, store, set_cell, expand, shift_up, insert, append,
}
use zbaselib.Array.Cells.{length-set_cell, get_elem?-set_cell, store-ok, shift_up-cells}

module _ {A : Type 0} where
  -- The array owns a block of `capacity` cells that holds its elements, and its numbers are `int`s.
  pub record IsValid (a : Array A) (mem : List A) : Type 0 where
    pub allocated : a.cells ≡ block mem
    pub block_size : length mem ≡ a.capacity
    pub size_in : a.size ≤ a.capacity
    pub capacity_int : a.capacity < 2 ^ 31

  -- The elements of an array whose block is `mem`.
  abbrev pub elements : Array A → List A → List A
  elements a mem = take a.size mem

  -- The next larger capacity and its size in bytes are `int`s too.
  pub record CanGrow (a : Array A) : Type 0 where
    pub larger_int : a.capacity + a.capacity / 2 + min_num < 2 ^ 31
    pub bytes_int : a.elem_size * (a.capacity + a.capacity / 2 + min_num) < 2 ^ 31
    pub has_size : 0 < a.elem_size

  -- The capacity that an insertion leaves.
  abbrev pub grown : Array A → ℕ
  grown a =
      if ltb a.capacity (a.size + 1) then a.capacity + a.capacity / 2 + min_num else a.capacity

  -- The cells that realloc adds, if the array has to grow.
  abbrev pub Fills : Array A → List A → Type 0
  Fills a more = length more ≡ a.capacity / 2 + min_num

  -- `zbaselib_array_expand` where realloc succeeds makes room for one more element.
  expand-room :
      (a : Array A) (mem more : List A)
      → IsValid a mem
      → CanGrow a
      → Fills a more
      → (mem' : List A) × (expand a 1 (some more)
          ≡ some (true, record a { cells = block mem'; capacity = grown a }))
        × (length mem' ≡ grown a)
        × ((i : ℕ) → i < a.size → get_elem? mem' i ≡ get_elem? mem i)
  unfolding expand fit_int
  expand-room a mem more v c f = elim (Bool-cases (ltb a.capacity (a.size + 1))) [
    | inl full ↦ (
      take (a.capacity + a.capacity / 2 + min_num) (mem ++ more),
      ground (arith, v, c),
      ground (
        arith,
        v,
        length-take (a.capacity + a.capacity / 2 + min_num) (mem ++ more),
        length-append mem more,
      ),
      λ i h. ground (
        arith,
        v,
        get_elem?-take (a.capacity + a.capacity / 2 + min_num) (mem ++ more) i,
        get_elem?-append mem more i,
      ),
    )
    | inr room ↦ (mem, ground (arith, v), ground (arith, v), λ i h. refl)
  ]

  -- The block after the shift and the store of an insertion.
  shift_store :
      (mem : List A) (size index : ℕ) (x : A)
      → size < length mem
      → index ≤ size
      → (moved : List A) × (mem' : List A) × (shift_up index (size - index) (block mem)
          ≡ some (block moved))
        × (store (block moved) index x ≡ some (block mem'))
        × (length mem' ≡ length mem)
        × (take (size + 1) mem' ≡ take index (take size mem) ++ x ∷ drop index (take size mem))
  shift_store mem size index x room inside =
      let (moved, run, len, cells) = shift_up-cells index (size - index) mem (omega arith) in
      let mem' : List A = set_cell moved index x in
      (
        moved,
        mem',
        run,
        store-ok moved index x (omega (arith, len)),
        omega (arith, len, length-set_cell moved index x),
        eq_of_get_elem? _ _ λ j. ground (
          arith,
          get_elem?-take (size + 1) mem' j,
          get_elem?-set_cell moved index x j,
          cells j,
          get_elem?-append (take index (take size mem)) (x ∷ drop index (take size mem)) j,
          length-take index (take size mem),
          length-take size mem,
          get_elem?-take index (take size mem) j,
          get_elem?-take size mem j,
          get_elem?_cons x (drop index (take size mem)) (j - index),
          get_elem?-drop index (take size mem) (j - index - 1),
          get_elem?-take size mem (j - 1),
        ),
      )

  -- `zbaselib_array_insert` at an index up to the size of an array that can grow, where realloc
  -- succeeds if it is needed, answers 0 and puts the element at that index, before the elements from
  -- there on; the array stays valid.
  pub insert-elements :
      (a : Array A) (mem more : List A) (x : A) (index : ℕ)
      → IsValid a mem
      → CanGrow a
      → Fills a more
      → index ≤ a.size
      → (a' : Array A) × (mem' : List A) × (insert (some a) (some x) (pos index) (some more)
          ≡ some (pos 0, some a'))
        × IsValid a' mem'
        × (a'.size ≡ a.size + 1)
        × (elements a' mem' ≡ take index (elements a mem) ++ x ∷ drop index (elements a mem))
  unfolding insert fit_int
  insert-elements a mem more x index v c f inside =
      let (big, grow, len, old) = expand-room a mem more v c f in
      let (moved, mem', run, put, len', now) =
        shift_store big a.size index x (ground (arith, v, c, len)) inside in
      let same : take a.size big ≡ take a.size mem =
        eq_of_get_elem? _ _
          λ i. ground (arith, get_elem?-take a.size big i, get_elem?-take a.size mem i, old i) in
      (
        record a { cells = block mem'; capacity = grown a; size = a.size + 1 },
        mem',
        ground (arith, v, c),
        record {
          allocated = refl;
          block_size = ground (arith, len, len');
          size_in = ground (arith, v);
          capacity_int = ground (arith, v, c);
        },
        refl,
        ground arith,
      )

  -- `zbaselib_array_append` to an array that can grow, where realloc succeeds if it is needed, answers
  -- 0 and puts the element at the end; the array stays valid.
  append-elements :
      (a : Array A) (mem more : List A) (x : A)
      → IsValid a mem
      → CanGrow a
      → Fills a more
      → (a' : Array A) × (mem' : List A) × (append (some a) (some x) (some more)
          ≡ some (pos 0, some a'))
        × IsValid a' mem'
        × (elements a' mem' ≡ elements a mem ++ x ∷ [])
  unfolding append
  append-elements a mem more x v c f =
      let (a', mem', run, v', s, e) = insert-elements a mem more x a.size v c f (omega arith) in
      let all : take a.size (elements a mem) ≡ elements a mem =
        take_all a.size (elements a mem) (omega (arith, length-take a.size mem)) in
      let nil : drop a.size (elements a mem) ≡ [] =
        drop_all a.size (elements a mem) (omega (arith, length-take a.size mem)) in
      (a', mem', ground (arith, v.allocated), v', ground arith)

  -- `zbaselib_array_insert` at an index up to the size of a full array whose next capacity is in
  -- range, where realloc fails, answers 0 like a success, and the array is as before, without the
  -- element.
  pub insert_lost :
      (a : Array A) (mem : List A) (x : A) (index : ℕ)
      → IsValid a mem
      → CanGrow a
      → a.size ≡ a.capacity
      → index ≤ a.size
      → insert (some a) (some x) (pos index) none ≡ some (pos 0, some a)
  unfolding insert fit_int
  insert_lost a mem x index v c full inside = ground (arith, v, c)
