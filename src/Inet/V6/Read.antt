-- ===== src/Inet/V6/Read.antt =====
-- zbaselib_socket.c: `inet_pton6`.
use zbaselib.Prelude.{
  ℕ, zero, suc, ◌+◌, ◌-◌, ◌*◌, ◌/◌, ◌%◌, ◌^◌, ◌>>=◌, Option, none, some, List, [], ◌∷◌, ◌==◌, ◌&&◌,
  ◌||◌, ltb, leb, if◌then◌else◌, replicate, get_elem?, take, Bool, true, false,
}
use zbaselib.Prelude.Block.{write_at}
use zbaselib.Inet.Chars.{strchr, xdigits_l, xdigits_u}
use zbaselib.Inet.V4.{pton4}

-- The result of a call: 0 with the bytes copied to `dst`, or -1; `fault` is a store outside of `tmp`.
pub data Answer : Type 0 where
  accepted : List ℕ → Answer
  refused : Answer
  fault : Answer

-- The locals of inet_pton6, with `tp` and `colonp` as offsets into the 16 bytes of `tmp`, and `curtok` as
-- the text from there on.
pub record Pton6 : Type 0 where
  pub tmp : List ℕ
  pub tp : ℕ
  pub colonp : Option ℕ
  pub curtok : List ℕ
  pub seen_xdigits : ℕ
  pub val : ℕ

-- One round of the loop: the next state, the state at the `break`, or the end of the call.
pub data Round : Type 0 where
  next : Pton6 → Round
  broken : Pton6 → Round
  over : Answer → Round

-- The value of a hexadecimal digit.
unfoldable pub xdigit : ℕ → Option ℕ
xdigit ch = elim (strchr xdigits_l ch) [ some d ↦ some d | none ↦ strchr xdigits_u ch ]

-- The two stores of `val` at `tp`.
unfoldable pub put_val : Pton6 → Option Pton6
put_val s = do
  tmp' ← write_at s.tmp s.tp (s.val / 256 % 256 ∷ s.val % 256 ∷ [])
  some (record s { tmp = tmp'; tp = s.tp + 2 })

unfoldable pub on_xdigit : ℕ → Pton6 → Round
on_xdigit d s =
    if ltb 4 (s.seen_xdigits + 1)
    then over refused
    else next (record s { val = (s.val * 16 + d) % 2 ^ 32; seen_xdigits = s.seen_xdigits + 1 })

-- `rest` is the text after the colon.
unfoldable pub on_colon : (rest : List ℕ) → Pton6 → Round
unfolding put_val
on_colon rest s =
    if s.seen_xdigits == 0
    then (elim s.colonp [
      | some c ↦ over refused
      | none ↦ next (record s { curtok = rest; colonp = some s.tp })
    ])
    else (elim rest [
      | [] ↦ over refused
      | x ∷ xs ↦ if ltb 16 (s.tp + 2) then over refused else (elim (put_val s) [
        | none ↦ over fault
        | some s' ↦ next (record s' { curtok = x ∷ xs; seen_xdigits = 0; val = 0 })
      ])
    ])

unfoldable pub on_dot : Pton6 → Round
on_dot s = elim (pton4 s.curtok) [
  | none ↦ over refused
  | some bytes ↦ (elim (write_at s.tmp s.tp bytes) [
    | none ↦ over fault
    | some tmp' ↦ broken (record s { tmp = tmp'; tp = s.tp + 4; seen_xdigits = 0 })
  ])
]

unfoldable pub pton6_step : ℕ → (rest : List ℕ) → Pton6 → Round
unfolding on_xdigit on_colon on_dot
pton6_step ch rest s = elim (xdigit ch) [
  | some d ↦ on_xdigit d s
  | none ↦
      if ch == 58
      then on_colon rest s
      else if (ch == 46) && leb (s.tp + 4) 16
      then on_dot s
      else over refused
]

-- All rounds: `next` is the end of the text.
unfoldable pub pton6_loop : List ℕ → Pton6 → Round
unfolding pton6_step
pton6_loop [] s = next s
pton6_loop (ch ∷ rest) s = elim (pton6_step ch rest s) [
  | next s' ↦ pton6_loop rest s'
  | broken s' ↦ broken s'
  | over answer ↦ over answer
]

-- The shift by hand of the `n` bytes from `c` on to the end of `tmp`: `left` rounds from `i` on. `endp[-i]`
-- and `colonp[n - i]` are outside of `tmp` where `i` is above 16 or `c + n`.
unfoldable pub shift : (left i c n : ℕ) → List ℕ → Option (List ℕ)
shift zero i c n tmp = some tmp
shift (suc left) i c n tmp = if ltb 16 i || ltb (c + n) i then none else (do
  x ← get_elem? tmp (c + n - i)
  tmp' ← write_at tmp (16 - i) (x ∷ [])
  tmp'' ← write_at tmp' (c + n - i) (0 ∷ [])
  shift left (i + 1) c n tmp'')

-- The end of the call, from `if (colonp != NULL)` on.
unfoldable pub pton6_colons : Pton6 → Answer
unfolding shift
pton6_colons s = elim s.colonp [
  | none ↦ if s.tp == 16 then accepted s.tmp else refused
  | some c ↦ if s.tp == 16 then refused else (elim (shift (s.tp - c) 1 c (s.tp - c) s.tmp) [
    | none ↦ fault
    | some tmp' ↦ accepted tmp'
  ])
]

-- The end of the call, from `if (seen_xdigits)` on.
unfoldable pub pton6_end : Pton6 → Answer
unfolding put_val pton6_colons
pton6_end s =
    if s.seen_xdigits == 0
    then pton6_colons s
    else if ltb 16 (s.tp + 2)
    then refused
    else (elim (put_val s) [ none ↦ fault | some s' ↦ pton6_colons s' ])

unfoldable pub pton6_start : List ℕ → Pton6
pton6_start src = record {
  tmp = replicate 16 0;
  tp = 0;
  colonp = none;
  curtok = src;
  seen_xdigits = 0;
  val = 0;
}

unfoldable pub pton6_run : List ℕ → Answer
unfolding pton6_start pton6_loop pton6_end
pton6_run src = elim (pton6_loop src (pton6_start src)) [
  | next s ↦ pton6_end s
  | broken s ↦ pton6_end s
  | over answer ↦ answer
]

-- inet_pton6: of two colons in front, the first is passed over.
unfoldable pub pton6 : List ℕ → Answer
unfolding pton6_run
pton6 [] = pton6_run []
pton6 (c ∷ []) = if c == 58 then refused else pton6_run (c ∷ [])
pton6 (c ∷ c' ∷ src) =
    if c == 58
    then (if c' == 58 then pton6_run (c' ∷ src) else refused)
    else pton6_run (c ∷ c' ∷ src)

-- zbaselib_inet_pton, with the two constants of the system. What stands behind a '%' is left out.
unfoldable pub inet_pton :
    (af_inet af_inet6 : ℕ) (af : ℕ) (src : Option (List ℕ)) (dst_ok : Bool) → Answer
unfolding pton6
inet_pton af_inet af_inet6 af none dst_ok = refused
inet_pton af_inet af_inet6 af (some src) false = refused
inet_pton af_inet af_inet6 af (some src) true =
    if af == af_inet
    then (elim (pton4 src) [ none ↦ refused | some bytes ↦ accepted bytes ])
    else if af == af_inet6
    then (elim (strchr src 37) [
      | none ↦ pton6 src
      | some len ↦ if ltb 45 len then refused else pton6 (take len src)
    ])
    else refused
