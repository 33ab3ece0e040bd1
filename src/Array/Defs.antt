-- ===== src/Array/Defs.antt =====
-- zbaselib_array.c: a growing array. An element is one cell of `elem_size` bytes, which the code only
-- copies whole. What malloc and realloc answer is an argument of the calls that make them.
use zbaselib.Prelude.{
  ℕ, zero, suc, ◌+◌, ◌-◌, ◌*◌, ◌/◌, ◌^◌, Bool, true, false, Option, none, some, List, [], ◌∷◌, ◌++◌,
  ◌>>=◌, ◌==◌, ltb, leb, if◌then◌else◌, ◌&&◌, length, get_elem?, take,
}
use zbaselib.Prelude.Int.{ℤ, pos, negsuc, lt_int, to_size}

-- A pointer to cells: NULL, dangling, or a block.
pub data Memory (A : Type 0) : Type 0 where
  null : Memory A
  freed : Memory A
  block : List A → Memory A

-- `struct _zbasebib_array`
pub record Array (A : Type 0) : Type 0 where
  pub elem_size : ℕ
  pub size : ℕ
  pub capacity : ℕ
  pub cells : Memory A

-- ZBASELIB_ARRAY_MIN_NUM
abbrev pub min_num : ℕ
min_num = 10

-- The value of an `int` sum or product; an overflow is undefined.
unfoldable pub fit_int : ℕ → Option ℕ
fit_int n = if ltb n (2 ^ 31) then some n else none

module _ {A : Type 0} where
  unfoldable pub load : Memory A → ℕ → Option A
  load null i = none
  load freed i = none
  load (block mem) i = get_elem? mem i

  abbrev pub set_cell : List A → ℕ → A → List A
  set_cell [] i x = []
  set_cell (y ∷ ys) zero x = x ∷ ys
  set_cell (y ∷ ys) (suc i) x = y ∷ set_cell ys i x

  unfoldable pub store : Memory A → ℕ → A → Option (Memory A)
  store null i x = none
  store freed i x = none
  store (block mem) i x = if ltb i (length mem) then some (block (set_cell mem i x)) else none

  -- realloc to `n` cells of `bytes` bytes in all: the pointer that it returns, and what becomes of the
  -- old block. `more` are the cells behind the old ones, or nothing if it fails. A size of 0 frees the
  -- block and returns NULL.
  unfoldable pub realloc : Memory A → (n bytes : ℕ) → Option (List A) → Memory A × Memory A
  realloc null n bytes more = (elim more [ none ↦ null | some cells ↦ block cells ], null)
  realloc freed n bytes more = (freed, freed)
  realloc (block mem) n bytes more = if bytes == 0 then (null, freed) else elim more [
    | none ↦ (null, block mem)
    | some cells ↦ (block (take n (mem ++ cells)), freed)
  ]

  -- `if(data != NULL) { thiz->data = data; thiz->capacity = capacity; }`
  unfoldable pub take_block : Array A → ℕ → Memory A × Memory A → Array A
  take_block thiz capacity (null, old) = record thiz { cells = old }
  take_block thiz capacity (freed, old) = record thiz { cells = freed; capacity = capacity }
  take_block thiz capacity (block mem, old) = record thiz { cells = block mem; capacity = capacity }

  unfoldable pub resize : Array A → ℕ → Option (List A) → Option (Array A)
  unfolding take_block realloc
  resize thiz capacity more = do
    bytes ← fit_int (thiz.elem_size * capacity)
    some (take_block thiz capacity (realloc thiz.cells capacity bytes more))

  unfoldable pub expand : Array A → ℕ → Option (List A) → Option (Bool × Array A)
  unfolding resize
  expand thiz need more = do
    wanted ← fit_int (thiz.size + need)
    if ltb thiz.capacity wanted
        then (do
          capacity ← fit_int (thiz.capacity + thiz.capacity / 2 + min_num)
          thiz' ← resize thiz capacity more
          some (leb wanted thiz'.capacity, thiz'))
        else some (true, thiz)

  unfoldable pub reduce : Array A → Option (List A) → Option (Array A)
  unfolding resize
  reduce thiz more =
      if ltb thiz.size (thiz.capacity / 2) && ltb min_num thiz.capacity
      then (do capacity ← fit_int (thiz.size + thiz.size / 2); resize thiz capacity more)
      else some thiz

  -- The copies `data[i] = data[i - 1]` for i from `index + k` down to `index + 1`.
  unfoldable pub shift_up : ℕ → ℕ → Memory A → Option (Memory A)
  shift_up index zero mem = some mem
  shift_up index (suc k) mem = do
    x ← load mem (index + k)
    mem' ← store mem (index + suc k) x
    shift_up index k mem'

  -- The copies `data[i] = data[i + 1]` for `k` indices from `i` on.
  unfoldable pub shift_down : ℕ → ℕ → Memory A → Option (Memory A)
  shift_down i zero mem = some mem
  shift_down i (suc k) mem = do
    x ← load mem (suc i)
    mem' ← store mem i x
    shift_down (suc i) k mem'

  abbrev pub is_null : Memory A → Bool
  is_null null = true
  is_null freed = false
  is_null (block mem) = false

  -- `thiz_ok` and `cells` are what the two calls of malloc answer.
  unfoldable pub create :
      (elem_size : ℕ) (elem_num : ℤ) → Bool → Option (List A) → Option (Option (Array A))
  create elem_size elem_num false cells = some none
  create elem_size elem_num true cells = do
    let capacity = if lt_int elem_num (pos min_num) then min_num else to_size elem_num
    bytes ← fit_int (elem_size * capacity)
    some (elim cells [
      | none ↦ none
      | some mem ↦
          some (record { elem_size = elem_size; size = 0; capacity = capacity; cells = block mem })
    ])

  unfoldable pub insert_at : Array A → A → ℕ → Option (List A) → Option (ℤ × Array A)
  unfolding expand shift_up load store
  insert_at thiz elem index more = do
    (ok, thiz') ← expand thiz 1 more
    if ok
        then (do
          moved ← shift_up index (thiz'.size - index) thiz'.cells
          cells ← store moved index elem
          size ← fit_int (thiz'.size + 1)
          some (pos 0, record thiz' { cells = cells; size = size }))
        else some (pos 0, thiz')

  unfoldable pub insert :
      Option (Array A) → Option A → ℤ → Option (List A) → Option (ℤ × Option (Array A))
  unfolding insert_at
  insert (some thiz) (some elem) (pos index) more =
      if is_null thiz.cells
      then some (negsuc 0, some thiz)
      else if ltb thiz.size index
      then some (negsuc 0, some thiz)
      else (do (status, thiz') ← insert_at thiz elem index more; some (status, some thiz'))
  insert thiz elem index more = some (negsuc 0, thiz)

  unfoldable pub size_of : Option (Array A) → ℤ
  size_of none = negsuc 0
  size_of (some thiz) = if is_null thiz.cells then negsuc 0 else pos thiz.size

  unfoldable pub capacity_of : Option (Array A) → ℤ
  capacity_of none = negsuc 0
  capacity_of (some thiz) = if is_null thiz.cells then negsuc 0 else pos thiz.capacity

  unfoldable pub prepend :
      Option (Array A) → Option A → Option (List A) → Option (ℤ × Option (Array A))
  unfolding insert
  prepend thiz elem more = insert thiz elem (pos 0) more

  unfoldable pub append :
      Option (Array A) → Option A → Option (List A) → Option (ℤ × Option (Array A))
  unfolding insert size_of
  append thiz elem more = insert thiz elem (size_of thiz) more

  unfoldable pub delete : Option (Array A) → ℤ → Option (List A) → Option (ℤ × Option (Array A))
  unfolding shift_down reduce load store
  delete (some thiz) (pos index) more =
      if is_null thiz.cells
      then some (negsuc 0, some thiz)
      else if leb thiz.size index
      then some (negsuc 0, some thiz)
      else (do
        cells ← shift_down index (thiz.size - 1 - index) thiz.cells
        thiz' ← reduce (record thiz { cells = cells; size = thiz.size - 1 }) more
        some (pos 0, some thiz'))
  delete thiz index more = some (negsuc 0, thiz)

  -- The cell that the returned pointer points at.
  unfoldable pub get : Option (Array A) → ℤ → Option ℕ
  get (some thiz) (pos index) =
      if is_null thiz.cells then none else if leb thiz.size index then none else some index
  get thiz index = none

  unfoldable pub set : Option (Array A) → A → ℤ → Option (ℤ × Option (Array A))
  unfolding store
  set (some thiz) elem (pos index) =
      if is_null thiz.cells
      then some (negsuc 0, some thiz)
      else if leb thiz.size index
      then some (negsuc 0, some thiz)
      else (do
        cells ← store thiz.cells index elem
        some (pos 0, some (record thiz { cells = cells })))
  set thiz elem index = some (negsuc 0, thiz)

  -- `cmp x` tells whether `cmp(ctx, x)` is 0; `k` elements from `i` on are left.
  unfoldable pub find_loop : (A → Bool) → Memory A → ℕ → ℕ → Option ℤ
  unfolding load
  find_loop cmp cells i zero = some (negsuc 0)
  find_loop cmp cells i (suc k) = do
    x ← load cells i
    let rest = find_loop cmp cells (suc i) k
    if cmp x then some (pos i) else rest

  unfoldable pub find : Option (Array A) → (A → Bool) → Option ℤ
  unfolding find_loop
  find none cmp = some (negsuc 0)
  find (some thiz) cmp =
      if is_null thiz.cells then some (negsuc 0) else find_loop cmp thiz.cells 0 thiz.size
