-- ===== src/Inet/Chars.antt =====
-- What the text of addresses takes from the C library: `strchr`, and the numbers of `printf`. A string is
-- the list of its codes, without the zero at its end.
use zbaselib.Prelude.{
  ℕ, zero, suc, ◌+◌, ◌/◌, ◌%◌, ◌≤◌, ◌<◌, ◌≡◌, Option, none, some, List, [], ◌∷◌, ◌++◌, ◌==◌, ltb,
  if◌then◌else◌, arith,
}

-- `strchr(s, c) - s`, for a code that is not zero
unfoldable pub strchr : List ℕ → ℕ → Option ℕ
strchr [] c = none
strchr (x ∷ xs) c =
    if x == c then some 0 else elim (strchr xs c) [ none ↦ none | some i ↦ some (suc i) ]

-- "0123456789", "0123456789abcdef" and "0123456789ABCDEF"
abbrev pub digits : List ℕ
digits = 48 ∷ 49 ∷ 50 ∷ 51 ∷ 52 ∷ 53 ∷ 54 ∷ 55 ∷ 56 ∷ 57 ∷ []

abbrev pub xdigits_l : List ℕ
xdigits_l = digits ++ 97 ∷ 98 ∷ 99 ∷ 100 ∷ 101 ∷ 102 ∷ []

abbrev pub xdigits_u : List ℕ
xdigits_u = digits ++ 65 ∷ 66 ∷ 67 ∷ 68 ∷ 69 ∷ 70 ∷ []

-- The digit of a value below 16.
unfoldable pub digit : ℕ → ℕ
digit d = if ltb d 10 then 48 + d else 87 + d

-- At most `fuel` digits of a number, most significant first; 32 are enough for an `unsigned int`.
unfoldable pub print_digits : (fuel base n : ℕ) → List ℕ
unfolding digit
print_digits zero base n = []
print_digits (suc fuel) base n =
    let front = print_digits fuel base (n / base) in
    if ltb n base then digit n ∷ [] else front ++ digit (n % base) ∷ []

-- "%u"
unfoldable pub print_u : ℕ → List ℕ
unfolding print_digits
print_u n = print_digits 32 10 n

-- "%x"
unfoldable pub print_x : ℕ → List ℕ
unfolding print_digits
print_x n = print_digits 32 16 n

pub strchr_digit : (d : ℕ) → d < 10 → strchr digits (48 + d) ≡ some d
unfolding strchr
strchr_digit d h = ground arith

pub digit_of_strchr : (c d : ℕ) → strchr digits c ≡ some d → (c ≡ 48 + d) × (d < 10)
unfolding strchr
digit_of_strchr c d e = ground arith

pub print_u_one : (d : ℕ) → d < 10 → print_u d ≡ (48 + d) ∷ []
unfolding print_u print_digits digit
print_u_one d h = ground arith

pub print_u_two : (n : ℕ) → 10 ≤ n → n < 100 → print_u n ≡ (48 + n / 10) ∷ (48 + n % 10) ∷ []
unfolding print_u print_digits digit
print_u_two n h l = ground arith

pub print_u_three :
    (n : ℕ)
    → 100 ≤ n
    → n < 1000
    → print_u n ≡ (48 + n / 100) ∷ (48 + n / 10 % 10) ∷ (48 + n % 10) ∷ []
unfolding print_u print_digits digit
print_u_three n h l = ground arith
