-- ===== src/Inet/Tests.antt =====
-- Addresses read and printed.
use zbaselib.Prelude.{ℕ, ◌≤◌, ◌<◌, ◌≡◌, ◌⊎◌, refl, none, some, List, [], ◌∷◌, ◌++◌, arith, length}
use zbaselib.Prelude.Lists.{replicate}
use zbaselib.Prelude.Block.{write_at, splice}
use zbaselib.Inet.Chars.{strchr, print_x}
use zbaselib.Inet.V4.{pton4, ntop4, print4, c_string}
use zbaselib.Inet.V4.Print.{ntop4-pton4}
use zbaselib.Inet.V4.Parse.{IsPrinted, pton4-IsPrinted}
use zbaselib.Inet.V6.Read.{pton6, accepted, refused, xdigit}
use zbaselib.Inet.V6.Write.{ntop6, words, best_run, print_words, copy_out}
use zbaselib.Inet.V6.Bounds.{IsServed}
use zbaselib.Inet.Bytes.{AllBytes}
use zbaselib.Inet.V6.Fits.{ntop6-fits}
use zbaselib.Inet.V6.Ends.{pton6-IsServed}

-- 192.168.0.1
abbrev home : List ℕ
home = 49 ∷ 57 ∷ 50 ∷ 46 ∷ 49 ∷ 54 ∷ 56 ∷ 46 ∷ 48 ∷ 46 ∷ 49 ∷ []

ntop4-pton4_example :
    let bytes : List ℕ = 192 ∷ 168 ∷ 0 ∷ 1 ∷ [] in
    ((16 ≤ length (print4 192 168 0 1)) × (16 ≤ 15) × (ntop4 bytes 16 ≡ none))
    ⊎ ((length (print4 192 168 0 1) < 16)
        × (mem : List ℕ) × (ntop4 bytes 16 ≡ some mem)
        × (length mem ≡ 16)
        × (pton4 (c_string mem) ≡ some bytes))
ntop4-pton4_example =
    ntop4-pton4 192 168 0 1 16 (omega arith) (omega arith) (omega arith) (omega arith)

read_home : pton4 home ≡ some (192 ∷ 168 ∷ 0 ∷ 1 ∷ [])
unfolding pton4 strchr
read_home = refl

pton4-IsPrinted_example : IsPrinted home (192 ∷ 168 ∷ 0 ∷ 1 ∷ [])
pton4-IsPrinted_example = pton4-IsPrinted home (192 ∷ 168 ∷ 0 ∷ 1 ∷ []) read_home

-- 2001:db8::ff:192.0.2.1
abbrev mixed : List ℕ
mixed =
    50 ∷ 48 ∷ 48 ∷ 49 ∷ 58 ∷ 100 ∷ 98 ∷ 56 ∷ 58 ∷ 58 ∷ 102 ∷ 102 ∷ 58 ∷ 49 ∷ 57 ∷ 50 ∷ 46 ∷ 48 ∷ 46
    ∷ 50 ∷ 46 ∷ 49 ∷ []

abbrev mixed_bytes : List ℕ
mixed_bytes = 32 ∷ 1 ∷ 13 ∷ 184 ∷ 0 ∷ 0 ∷ 0 ∷ 0 ∷ 0 ∷ 0 ∷ 0 ∷ 255 ∷ 192 ∷ 0 ∷ 2 ∷ 1 ∷ []

pton6-IsServed_example : IsServed (pton6 mixed)
pton6-IsServed_example = pton6-IsServed mixed

read_mixed : pton6 mixed ≡ accepted mixed_bytes
unfolding pton6 strchr pton4 xdigit write_at replicate splice
read_mixed = refl

-- 2001:db8::ff:c000:201
print_mixed :
    ntop6 mixed_bytes 46
    ≡ some (
        50 ∷ 48 ∷ 48 ∷ 49 ∷ 58 ∷ 100 ∷ 98 ∷ 56 ∷ 58 ∷ 58 ∷ 102 ∷ 102 ∷ 58 ∷ 99 ∷ 48 ∷ 48 ∷ 48 ∷ 58
        ∷ 50 ∷ 48 ∷ 49 ∷ 0 ∷ [])
unfolding ntop6 words best_run print_words copy_out print_x
print_mixed = refl

-- ::ffff:192.0.2.1 is printed with its last four bytes in decimal.
print_encapsulated :
    ntop6 (0 ∷ 0 ∷ 0 ∷ 0 ∷ 0 ∷ 0 ∷ 0 ∷ 0 ∷ 0 ∷ 0 ∷ 255 ∷ 255 ∷ 192 ∷ 0 ∷ 2 ∷ 1 ∷ []) 46
    ≡ some
        (58 ∷ 58 ∷ 102 ∷ 102 ∷ 102 ∷ 102 ∷ 58 ∷ 49 ∷ 57 ∷ 50 ∷ 46 ∷ 48 ∷ 46 ∷ 50 ∷ 46 ∷ 49 ∷ 0 ∷ [])
unfolding ntop6 words best_run print_words copy_out print_x ntop4 c_string replicate
print_encapsulated = refl

-- A third colon, a group of five digits and a part of an address are refused.
refusals :
    (pton6 (58 ∷ 58 ∷ 58 ∷ []) ≡ refused)
    × (pton6 (58 ∷ 58 ∷ 49 ∷ 49 ∷ 49 ∷ 49 ∷ 49 ∷ []) ≡ refused)
    × (pton6 (49 ∷ 58 ∷ 50 ∷ []) ≡ refused)
unfolding pton6 strchr xdigit write_at replicate splice
refusals = (refl, refl, refl)

mixed-AllBytes : AllBytes mixed_bytes
mixed-AllBytes = (
  omega arith,
  (
    omega arith,
    (
      omega arith,
      (
        omega arith,
        (
          omega arith,
          (
            omega arith,
            (
              omega arith,
              (
                omega arith,
                (
                  omega arith,
                  (
                    omega arith,
                    (
                      omega arith,
                      (omega arith, (omega arith, (omega arith, (omega arith, (omega arith, tt))))),
                    ),
                  ),
                ),
              ),
            ),
          ),
        ),
      ),
    ),
  ),
)

ntop6-fits_example :
    (text : List ℕ) × (length text ≤ 43)
    × ((size : ℕ)
        → ((size ≤ length text) × (ntop6 mixed_bytes size ≡ none))
          ⊎ ((length text < size) × (ntop6 mixed_bytes size ≡ some (text ++ 0 ∷ []))))
ntop6-fits_example = ntop6-fits mixed_bytes refl mixed-AllBytes
