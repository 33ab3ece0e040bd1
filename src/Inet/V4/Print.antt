-- ===== src/Inet/V4/Print.antt =====
-- zbaselib_socket.c: `inet_pton4` reads back what `inet_ntop4` prints.
use zbaselib.Prelude.{
  ℕ, zero, suc, ◌-◌, ◌≤◌, ◌<◌, ◌≡◌, refl, sym, ap, ◌∙◌, none, some, List, [], ◌∷◌, ◌++◌, ltb, leb,
  if◌then◌else◌, false, length, arith, Bool-cases, inl, inr, leb→le, length-replicate, subst, ◌⊎◌,
  length-append,
}
use zbaselib.Prelude.Lists.{replicate}
use zbaselib.Inet.Chars.{print_u, print_u_one, print_u_two, print_u_three}
use zbaselib.Inet.V4.{pton4_loop, pton4, pton4_start, print4, ntop4, c_string, copied}
use zbaselib.Inet.V4.Octets.{in_octet, octet_read, dot_octet_read, text_end}

-- inet_pton4 of "a.b.c.d", for four octets
pub pton4-print4 :
    (a b c d : ℕ)
    → a < 256
    → b < 256
    → c < 256
    → d < 256
    → pton4 (print4 a b c d) ≡ some (a ∷ b ∷ c ∷ d ∷ [])
unfolding pton4
pton4-print4 a b c d ha hb hc hd =
    let after_c : List ℕ = 46 ∷ (print_u d ++ []) in
    let after_b : List ℕ = 46 ∷ (print_u c ++ after_c) in
    let after_a : List ℕ = 46 ∷ (print_u b ++ after_b) in
    let all : pton4_loop (print_u a ++ after_a) pton4_start ≡ some (in_octet 3 (a ∷ b ∷ c ∷ []) d) =
      octet_read a 0 [] after_a ha (omega arith)
      ∙ dot_octet_read a b 1 [] after_b hb (omega arith)
      ∙ dot_octet_read b c 2 (a ∷ []) after_c hc (omega arith)
      ∙ dot_octet_read c d 3 (a ∷ b ∷ []) [] hd (omega arith) in
    ground (arith, all, text_end a b c d)

-- No zero among the codes.
abbrev pub IsText : List ℕ → Type 0
IsText [] = Unit
IsText (c ∷ s) = (0 < c) × IsText s

pub IsText-append : (s t : List ℕ) → IsText s → IsText t → IsText (s ++ t)
IsText-append [] t hs ht = ht
IsText-append (c ∷ s) t (h, hs) ht = (h, IsText-append s t hs ht)

-- A string is in its memory up to the zeros after it.
pub c_string-append : (s : List ℕ) (k : ℕ) → IsText s → c_string (s ++ replicate k 0) ≡ s
unfolding c_string replicate
c_string-append [] zero h = refl
c_string-append [] (suc k) h = refl
c_string-append (zero ∷ s) k (h, hs) = absurd (omega arith)
c_string-append (suc c ∷ s) k (h, hs) = ap (λ r. suc c ∷ r) (c_string-append s k hs)

print_u-IsText : (n : ℕ) → n < 256 → IsText (print_u n) × (length (print_u n) ≤ 3)
print_u-IsText n h = elim (Bool-cases (ltb n 10)) [
  | inl one ↦ subst IsOctet (sym (print_u_one n (ground arith))) (ground arith)
  | inr more ↦ elim (Bool-cases (ltb n 100)) [
    | inl two ↦ subst IsOctet (sym (print_u_two n (ground arith) (ground arith))) (ground arith)
    | inr three ↦ subst IsOctet (sym (print_u_three n (ground arith) (omega arith))) (ground arith)
  ]
]
  where
    IsOctet : List ℕ → Type 0
    IsOctet s = IsText s × (length s ≤ 3)

pub print4-IsText :
    (a b c d : ℕ)
    → a < 256
    → b < 256
    → c < 256
    → d < 256
    → IsText (print4 a b c d) × (length (print4 a b c d) ≤ 15)
unfolding print4
print4-IsText a b c d ha hb hc hd =
    let (ta, la) = print_u-IsText a ha in
    let (tb, lb) = print_u-IsText b hb in
    let (tc, lc) = print_u-IsText c hc in
    let (td, ld) = print_u-IsText d hd in
    let end_c : List ℕ = print_u c ++ 46 ∷ print_u d in
    let end_b : List ℕ = print_u b ++ 46 ∷ end_c in
    (
      IsText-append (print_u a) (46 ∷ end_b) ta (
        omega arith,
        IsText-append (print_u b) (46 ∷ end_c) tb
            (omega arith, IsText-append (print_u c) (46 ∷ print_u d) tc (omega arith, td)),
      ),
      omega (
        arith,
        length-append (print_u a) (46 ∷ end_b),
        length-append (print_u b) (46 ∷ end_c),
        length-append (print_u c) (46 ∷ print_u d),
      ),
    )

length-copied : (text : List ℕ) (size : ℕ) → length text < size → length (copied text size) ≡ size
length-copied text size lt =
    let zeros : List ℕ = replicate (size - length text) 0 in
    let len : length zeros ≡ size - length text = length-replicate (size - length text) 0 in
    omega (arith, length-append text zeros, len)

lt_of_leb : (m n : ℕ) → leb m n ≡ false → n < m
lt_of_leb m n e = ground arith

-- `inet_ntop4` of four bytes fills all `size` bytes at `dst`, and `inet_pton4` reads the same four bytes
-- back from the string there; it refuses just the sizes that are too small for the string with its zero,
-- and no size above 15 is.
pub ntop4-pton4 :
    (a b c d size : ℕ)
    → a < 256
    → b < 256
    → c < 256
    → d < 256
    → let bytes : List ℕ = a ∷ b ∷ c ∷ d ∷ [] in
      ((size ≤ length (print4 a b c d)) × (size ≤ 15) × (ntop4 bytes size ≡ none))
      ⊎ ((length (print4 a b c d) < size)
          × (mem : List ℕ) × (ntop4 bytes size ≡ some mem)
          × (length mem ≡ size)
          × (pton4 (c_string mem) ≡ some bytes))
unfolding ntop4
ntop4-pton4 a b c d size ha hb hc hd =
    let text : List ℕ = print4 a b c d in
    let (is_text, len) = print4-IsText a b c d ha hb hc hd in
    elim (Bool-cases (leb size (length text))) [
      | inl small ↦
          let le : size ≤ length text = leb→le size (length text) small in
          inl (le, omega (arith, len), ap (λ t. if t then none else some (copied text size)) small)
      | inr large ↦
          let lt : length text < size = lt_of_leb size (length text) large in
          inr (
            lt,
            copied text size,
            ap (λ t. if t then none else some (copied text size)) large,
            length-copied text size lt,
            ap pton4 (c_string-append text (size - length text) is_text)
                ∙ pton4-print4 a b c d ha hb hc hd,
          )
    ]
