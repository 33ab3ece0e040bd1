-- ===== src/Inet/V6/Fits.antt =====
-- zbaselib_socket.c: the text of `inet_ntop6` fits into its 46 bytes.
use zbaselib.Prelude.{
  ℕ, zero, suc, ◌+◌, ◌-◌, ◌*◌, ◌/◌, ◌%◌, ◌≤◌, ◌<◌, ◌≡◌, refl, sym, ap, subst, Option, none, some,
  List, [], ◌∷◌, ◌++◌, ◌==◌, ◌&&◌, not, ltb, leb, Bool, true, false, if◌then◌else◌, length, drop,
  length-append, length-drop, arith, Bool-cases, inl, inr, ◌⊎◌, lt→leb, ◌>>=◌,
}
use zbaselib.Inet.Bytes.{AllBytes, AllBytes-drop}
use zbaselib.Inet.Chars.{digit, print_digits, print_x}
use zbaselib.Inet.V4.{ntop4, print4, c_string, copied}
use zbaselib.Inet.V4.Print.{print4-IsText, c_string-append}
use zbaselib.Inet.V6.Write.{
  Run, words, best_run, is_inside, is_base, is_encapsulated, is_trailing, print_words, ntop6,
  copy_out,
}

length-print_one : (fuel n : ℕ) → n < 16 → length (print_digits (suc fuel) 16 n) ≡ 1
unfolding print_digits
length-print_one fuel n h = ground arith

-- One more digit.
length-print_more :
    (fuel n k : ℕ)
    → length (print_digits fuel 16 (n / 16)) ≤ k
    → length (print_digits (suc fuel) 16 n) ≤ k + 1
unfolding print_digits
length-print_more fuel n k h = elim (Bool-cases (ltb n 16)) [
  | inl one ↦ ground arith
  | inr more ↦ ground (arith, length-append (print_digits fuel 16 (n / 16)) (digit (n % 16) ∷ []))
]

-- "%x" of a word
length-print_x : (w : ℕ) → w < 65536 → length (print_x w) ≤ 4
unfolding print_x
length-print_x w h =
    let one : length (print_digits 29 16 (w / 16 / 16 / 16)) ≡ 1 =
      length-print_one 28 (w / 16 / 16 / 16) (omega arith) in
    length-print_more 31 w 3
      (length-print_more 30 (w / 16) 2 (length-print_more 29 (w / 16 / 16) 1 (omega arith)))

abbrev AllWords : List ℕ → Type 0
AllWords [] = Unit
AllWords (w ∷ ws) = (w < 65536) × AllWords ws

-- Eight words of sixteen bytes.
words-AllWords :
    (n : ℕ) (src : List ℕ)
    → length src ≡ n * 2
    → AllBytes src
    → AllWords (words src) × (length (words src) ≡ n)
unfolding words
words-AllWords zero [] len all = (tt, refl)
words-AllWords zero (a ∷ src) len all = absurd (omega arith)
words-AllWords (suc n) [] len all = absurd (omega arith)
words-AllWords (suc n) (a ∷ []) len all = absurd (omega arith)
words-AllWords (suc n) (a ∷ b ∷ src) len (ha, (hb, all)) =
    let (rest, eight) = words-AllWords n src (omega arith) all in
    ((omega arith, rest), ap suc eight)

-- The four bytes at the end, in decimal.
ntop4-fits :
    (bytes : List ℕ) (size : ℕ)
    → length bytes ≡ 4
    → AllBytes bytes
    → 15 < size
    → (mem : List ℕ) × (ntop4 bytes size ≡ some mem) × (length (c_string mem) ≤ 15)
unfolding ntop4
ntop4-fits [] size len all large = absurd (omega arith)
ntop4-fits (a ∷ []) size len all large = absurd (omega arith)
ntop4-fits (a ∷ b ∷ []) size len all large = absurd (omega arith)
ntop4-fits (a ∷ b ∷ c ∷ []) size len all large = absurd (omega arith)
ntop4-fits (a ∷ b ∷ c ∷ d ∷ rest) size len (ha, (hb, (hc, (hd, _)))) large =
    let text : List ℕ = print4 a b c d in
    let (is_text, fits) = print4-IsText a b c d ha hb hc hd in
    let enough : leb size (length text) ≡ false = lt→leb size (length text) (omega (arith, fits)) in
    let same : c_string (copied text size) ≡ text =
      c_string-append text (size - length text) is_text in
    (
      copied text size,
      ap (λ t. if t then none else some (copied text size)) enough,
      subst (λ s. length s ≤ 15) (sym same) fits,
    )

best_run-long : (ws : List ℕ) (b : ℕ) → (best_run ws).base ≡ some b → 2 ≤ (best_run ws).len
unfolding best_run
best_run-long ws b e = ground (arith, e)

-- The text before word `i` is at most five characters for each, and less after a run at the start.
record Short (best : Run) (i : ℕ) (text : List ℕ) : Type 0 where
  short : length text ≤ 5 * i
  shorter : is_base best 0 ≡ true → 0 < i → length text + 4 ≤ 5 * i

encapsulated_at :
    (best : Run) (ws : List ℕ) (i : ℕ)
    → is_encapsulated best ws i ≡ true
    → (i ≡ 6) × (is_base best 0 ≡ true)
unfolding is_encapsulated
encapsulated_at best ws i e = (ground (arith, e), ground (arith, e))

-- A run at the start has word 0 inside.
inside_first :
    (best : Run)
    → ((b : ℕ) → best.base ≡ some b → 2 ≤ best.len)
    → is_base best 0 ≡ true
    → is_inside best 0 ≡ true
unfolding is_base is_inside
inside_first best long e = ground (arith, e, long 0)

print_words-fits :
    (src : List ℕ) (best : Run) (ws left : List ℕ) (i : ℕ) (text : List ℕ)
    → length src ≡ 16
    → AllBytes src
    → ((b : ℕ) → best.base ≡ some b → 2 ≤ best.len)
    → AllWords left
    → length left + i ≡ 8
    → Short best i text
    → (text' : List ℕ) × (print_words src best ws left i text ≡ some text') × (length text' ≤ 42)
unfolding print_words
print_words-fits src best ws [] i text len all long all_words n short =
    (text, refl, omega (arith, short.short))
print_words-fits src best ws (w ∷ left) i text len all long (hw, all_words) n short =
    let colon : List ℕ = if i == 0 then text else text ++ 58 ∷ [] in
    let inside : Bool = is_inside best i in
    let one_more : length (text ++ 58 ∷ []) ≡ length text + 1 = length-append text (58 ∷ []) in
    elim (Bool-cases (not inside && is_encapsulated best ws i)) [
      | inl decimal ↦
          let (six, at_start) = encapsulated_at best ws i (ground (arith, decimal)) in
          let colon_fits : length colon ≤ 27 =
            ground (arith, one_more, short.shorter at_start, six) in
          let (mem, run, digits_fit) =
            ntop4-fits (drop 12 src) (46 - length colon) (omega (arith, length-drop 12 src))
              (AllBytes-drop 12 src all) (omega arith) in
          (
            colon ++ c_string mem,
            ground (arith, decimal, run),
            omega (arith, length-append colon (c_string mem)),
          )
      | inr hex ↦
          let next : List ℕ =
            if inside
            then (if is_base best i then text ++ 58 ∷ [] else text)
            else colon ++ print_x w in
          let word : length (colon ++ print_x w) ≡ length colon + length (print_x w) =
            length-append colon (print_x w) in
          let next_short : Short best (i + 1) next = record {
            short = ground (arith, short.short, one_more, word, length-print_x w hw);
            shorter = λ e lt. elim (Bool-cases (i == 0)) [
              | inl first ↦ ground (arith, first, inside_first best long e, short.short, one_more)
              | inr later ↦
                  ground (arith, later, short.shorter e, one_more, word, length-print_x w hw)
            ];
          } in
          let (text', run, fits) =
            print_words-fits src best ws left (i + 1) next len all long all_words (omega arith)
              next_short in
          (text', ground (arith, hex, run), fits)
    ]

-- The two ends of a call.
abbrev Copied : List ℕ → ℕ → Option (List ℕ) → Type 0
Copied text size reply =
    ((size ≤ length text) × (reply ≡ none))
    ⊎ ((length text < size) × (reply ≡ some (text ++ 0 ∷ [])))

copy_out-Copied :
    (best : Run) (text : List ℕ) (size : ℕ)
    → let whole = if is_trailing best then text ++ 58 ∷ [] else text in
      (length whole ≤ length text + 1) × Copied whole size (copy_out best text size)
unfolding copy_out
copy_out-Copied best text size =
    let whole : List ℕ = if is_trailing best then text ++ 58 ∷ [] else text in
    let one_more : length (text ++ 58 ∷ []) ≡ length text + 1 = length-append text (58 ∷ []) in
    let with_zero : length (whole ++ 0 ∷ []) ≡ length whole + 1 = length-append whole (0 ∷ []) in
    (
      ground (arith, one_more),
      elim (Bool-cases (ltb size (length (whole ++ 0 ∷ [])))) [
        | inl small ↦ inl (
          ground (arith, small, with_zero),
          ap (λ t. if t then none else some (whole ++ 0 ∷ [])) small,
        )
        | inr large ↦ inr (
          ground (arith, large, with_zero),
          ap (λ t. if t then none else some (whole ++ 0 ∷ [])) large,
        )
      ],
    )

-- `inet_ntop6` of 16 bytes makes a text of at most 43 characters, so that with its zero it stays inside of
-- its own 46 bytes. To every size that is enough for this one text and its zero it copies them, and it
-- refuses every other.
pub ntop6-fits :
    (src : List ℕ)
    → length src ≡ 16
    → AllBytes src
    → (text : List ℕ) × (length text ≤ 43)
      × ((size : ℕ)
          → ((size ≤ length text) × (ntop6 src size ≡ none))
            ⊎ ((length text < size) × (ntop6 src size ≡ some (text ++ 0 ∷ []))))
unfolding ntop6
ntop6-fits src len all =
    let best : Run = best_run (words src) in
    let (all_words, eight) = words-AllWords 8 src len all in
    let start : Short best 0 [] = record { short = omega arith; shorter = λ e lt. omega arith } in
    let (text, run, fits) =
      print_words-fits src best (words src) (words src) 0 [] len all (best_run-long (words src))
        all_words (omega arith) start in
    let whole : List ℕ = if is_trailing best then text ++ 58 ∷ [] else text in
    let longer = (copy_out-Copied best text 0).0 in
    (
      whole,
      omega (arith, fits, longer),
      λ size.
          subst (Copied whole size) (sym (ap (λ o. o >>= λ text. copy_out best text size) run))
            (copy_out-Copied best text size).1,
    )
