-- ===== src/Inet/V6/Write.antt =====
-- zbaselib_socket.c: `inet_ntop6`.
use zbaselib.Prelude.{
  ℕ, ◌+◌, ◌-◌, ◌*◌, ◌^◌, ◌>>=◌, Option, none, some, List, [], ◌∷◌, ◌++◌, ◌==◌, ◌&&◌, ◌||◌, not, ltb,
  leb, Bool, true, false, if◌then◌else◌, length, drop, get_elem?,
}
use zbaselib.Inet.Chars.{print_x}
use zbaselib.Inet.V4.{ntop4, c_string}

-- The 16-bit words of the bytes.
unfoldable pub words : List ℕ → List ℕ
words (a ∷ b ∷ src) = (a * 2 ^ 8 + b) ∷ words src
words _ = []

-- `best` and `cur`, where a `base` of -1 is `none`
pub record Run : Type 0 where
  pub base : Option ℕ
  pub len : ℕ

-- The run that ends before a word that is not zero, or at the end, against the best one.
unfoldable pub better : (cur best : Run) → Run
better cur best = elim cur.base [
  | none ↦ best
  | some b ↦ (elim best.base [ none ↦ cur | some b' ↦ if ltb best.len cur.len then cur else best ])
]

unfoldable pub longer : (i : ℕ) → Run → Run
longer i cur = elim cur.base [
  | none ↦ record { base = some i; len = 1 }
  | some b ↦ record cur { len = cur.len + 1 }
]

unfoldable pub scan : List ℕ → (i : ℕ) (cur best : Run) → Run
unfolding better longer
scan [] i cur best = better cur best
scan (w ∷ ws) i cur best =
    let cur' : Run = if w == 0 then longer i cur else record cur { base = none } in
    let best' : Run = if w == 0 then best else better cur best in scan ws (i + 1) cur' best'

abbrev pub no_run : Run
no_run = record { base = none; len = 0 }

-- The longest run of zero words, of two words at least.
unfoldable pub best_run : List ℕ → Run
unfolding scan
best_run ws =
    let best : Run = scan ws 0 no_run no_run in
    if ltb best.len 2 then record best { base = none } else best

unfoldable pub is_inside : Run → ℕ → Bool
is_inside best i = elim best.base [ none ↦ false | some b ↦ leb b i && ltb i (b + best.len) ]

unfoldable pub is_base : Run → ℕ → Bool
is_base best i = elim best.base [ none ↦ false | some b ↦ b == i ]

-- The test for an encapsulated address of version 4.
unfoldable pub is_encapsulated : Run → List ℕ → ℕ → Bool
unfolding is_base
is_encapsulated best ws i =
    (i == 6)
    && (is_base best 0
        && ((best.len == 6)
            || (((best.len == 7)
                  && (elim (get_elem? ws 7) [ none ↦ false | some w ↦ not (w == 1) ]))
                || ((best.len == 5)
                    && (elim (get_elem? ws 5) [ none ↦ false | some w ↦ w == 65535 ])))))

-- The rounds from word `i` on, after the text so far, with `none` for a return of -1; `tmp` has 46 bytes.
unfoldable pub print_words :
    (src : List ℕ) (best : Run) (ws : List ℕ) → List ℕ → (i : ℕ) → List ℕ → Option (List ℕ)
unfolding is_inside is_base is_encapsulated
print_words src best ws [] i text = some text
print_words src best ws (w ∷ left) i text =
    let colon : List ℕ = if i == 0 then text else text ++ 58 ∷ [] in
    let inside : Bool = is_inside best i in
    elim (not inside && is_encapsulated best ws i) [
      | true ↦ (do mem ← ntop4 (drop 12 src) (46 - length colon); some (colon ++ c_string mem))
      | false ↦ print_words src best ws left (i + 1) (
          if inside then (if is_base best i then text ++ 58 ∷ [] else text) else colon ++ print_x w)
    ]

-- Whether the run is at the end.
unfoldable pub is_trailing : Run → Bool
is_trailing best = elim best.base [ none ↦ false | some b ↦ b + best.len == 8 ]

-- The end of the call, from the test for a trailing run on.
unfoldable pub copy_out : Run → (text : List ℕ) → (size : ℕ) → Option (List ℕ)
unfolding is_trailing
copy_out best text size =
    let whole : List ℕ = (if is_trailing best then text ++ 58 ∷ [] else text) ++ 0 ∷ [] in
    if ltb size (length whole) then none else some whole

-- inet_ntop6: the string copied to `dst` with its zero, or `none` for -1.
unfoldable pub ntop6 : List ℕ → (size : ℕ) → Option (List ℕ)
ntop6 src size = do
  text ← print_words src (best_run (words src)) (words src) (words src) 0 []
  copy_out (best_run (words src)) text size

-- zbaselib_inet_ntop
unfoldable pub inet_ntop :
    (af_inet af_inet6 : ℕ) (af : ℕ) (src : List ℕ) (size : ℕ) → Option (List ℕ)
unfolding ntop6
inet_ntop af_inet af_inet6 af src size =
    if af == af_inet then ntop4 src size else if af == af_inet6 then ntop6 src size else none
