-- ===== src/Inet/V4/Octets.antt =====
-- zbaselib_socket.c: `inet_pton4` reads a printed octet.
use zbaselib.Prelude.{
  ℕ, ◌+◌, ◌*◌, ◌/◌, ◌%◌, ◌<◌, ◌≡◌, sym, ap, some, List, [], ◌∷◌, ◌++◌, ltb, true, false, arith,
  Bool-cases, inl, inr, append-nil,
}
use zbaselib.Inet.Chars.{print_u, strchr_digit, print_u_one, print_u_two, print_u_three, strchr}
use zbaselib.Inet.V4.{Pton4, pton4_step, pton4_loop, print4}

-- A digit of an octet that goes on.
step_on :
    (s : Pton4) (d : ℕ)
    → d < 10
    → s.saw_digit ≡ true
    → 0 < s.at_tp
    → s.at_tp * 10 + d < 256
    → pton4_step (48 + d) s ≡ some (record s { at_tp = s.at_tp * 10 + d })
unfolding pton4_step
step_on s d small saw ne fits = ground (arith, strchr_digit d small)

-- The first digit of an octet.
step_first :
    (s : Pton4) (d : ℕ)
    → d < 10
    → s.saw_digit ≡ false
    → s.at_tp ≡ 0
    → s.octets < 4
    → pton4_step (48 + d) s ≡ some (record s { at_tp = d; octets = s.octets + 1; saw_digit = true })
unfolding pton4_step
step_first s d small saw z lt = ground (arith, strchr_digit d small)

step_dot :
    (s : Pton4)
    → s.saw_digit ≡ true
    → s.octets < 4
    → pton4_step 46 s
      ≡ some (record s {
        octets_before = s.octets_before ++ s.at_tp ∷ [];
        at_tp = 0;
        saw_digit = false;
      })
unfolding pton4_step strchr
step_dot s saw lt = ground arith

-- In the octet after `done`, with the digits so far.
abbrev pub in_octet : ℕ → List ℕ → ℕ → Pton4
in_octet k done v = record { saw_digit = true; octets = k + 1; octets_before = done; at_tp = v }

-- A printed octet is read.
pub octet_read :
    (n k : ℕ) (done rest : List ℕ)
    → n < 256
    → k < 4
    → pton4_loop
        (print_u n ++ rest)
        (record { saw_digit = false; octets = k; octets_before = done; at_tp = 0 })
      ≡ pton4_loop rest
          (record { saw_digit = true; octets = k + 1; octets_before = done; at_tp = n })
unfolding pton4_loop
octet_read n k done rest small lt =
    let start : Pton4 = record { saw_digit = false; octets = k; octets_before = done; at_tp = 0 } in
    elim (Bool-cases (ltb n 10)) [
      | inl one ↦ ground (arith, print_u_one n, step_first start n)
      | inr more ↦ elim (Bool-cases (ltb n 100)) [
        | inl two ↦ ground (
          arith,
          print_u_two n,
          step_first start (n / 10),
          step_on (in_octet k done (n / 10)) (n % 10),
        )
        | inr three ↦ ground (
          arith,
          print_u_three n,
          step_first start (n / 100),
          step_on (in_octet k done (n / 100)) (n / 10 % 10),
          step_on (in_octet k done (n / 10)) (n % 10),
        )
      ]
    ]

-- A dot and an octet are read.
pub dot_octet_read :
    (v n k : ℕ) (done rest : List ℕ)
    → n < 256
    → k < 4
    → pton4_loop
        (46 ∷ (print_u n ++ rest))
        (record { saw_digit = true; octets = k; octets_before = done; at_tp = v })
      ≡ pton4_loop rest
          (record { saw_digit = true; octets = k + 1; octets_before = done ++ v ∷ []; at_tp = n })
unfolding pton4_loop
dot_octet_read v n k done rest small lt = ground (
  arith,
  step_dot (record { saw_digit = true; octets = k; octets_before = done; at_tp = v }),
  octet_read n k (done ++ v ∷ []) rest,
)

end_nil :
    (p q r s : List ℕ)
    → p ++ 46 ∷ (q ++ 46 ∷ (r ++ 46 ∷ s)) ≡ p ++ 46 ∷ (q ++ 46 ∷ (r ++ 46 ∷ (s ++ [])))
end_nil p q r s = ap (λ z. p ++ 46 ∷ (q ++ 46 ∷ (r ++ 46 ∷ z))) (sym (append-nil s))

pub text_end :
    (a b c d : ℕ)
    → print4 a b c d ≡ print_u a ++ 46 ∷ (print_u b ++ 46 ∷ (print_u c ++ 46 ∷ (print_u d ++ [])))
unfolding print4
text_end a b c d = end_nil (print_u a) (print_u b) (print_u c) (print_u d)
