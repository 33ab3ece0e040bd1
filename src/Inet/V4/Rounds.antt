-- ===== src/Inet/V4/Rounds.antt =====
-- zbaselib_socket.c: each round of `inet_pton4` reads one more character of the text of its octets.
use zbaselib.Prelude.{
  ℕ, ◌+◌, ◌*◌, ◌≤◌, ◌<◌, ◌≡◌, ◌≢◌, refl, sym, ap, ◌∙◌, Option, none, some, List, [], ◌∷◌, ◌++◌, ltb,
  if◌then◌else◌, true, false, length, arith, Bool-cases, inl, inr, append_assoc, ◌>>=◌,
  length-append, append-nil, subst, ◌⊎◌,
}
use zbaselib.Inet.Chars.{
  print_u, digit_of_strchr, print_u_one, print_u_two, print_u_three, digits, strchr,
}
use zbaselib.Inet.Bytes.{AllBytes, AllBytes-append}
use zbaselib.Inet.V4.{Pton4, pton4_step, pton4_start}

-- The octets in front of `tp`, each with its dot.
abbrev pub dotted : List ℕ → List ℕ
dotted [] = []
dotted (v ∷ vs) = print_u v ++ 46 ∷ dotted vs

-- The text that is read.
abbrev pub read_text : Pton4 → List ℕ
read_text s = dotted s.octets_before ++ (if s.saw_digit then print_u s.at_tp else [])

pub read_text_saw :
    (s : Pton4) → s.saw_digit ≡ true → read_text s ≡ dotted s.octets_before ++ print_u s.at_tp
read_text_saw s saw = ap (λ t. dotted s.octets_before ++ (if t then print_u s.at_tp else [])) saw

read_text_dot : (s : Pton4) → s.saw_digit ≡ false → read_text s ≡ dotted s.octets_before
read_text_dot s saw =
    ap (λ t. dotted s.octets_before ++ (if t then print_u s.at_tp else [])) saw
    ∙ append-nil (dotted s.octets_before)

-- What holds at the head of the loop.
pub record Invariant (s : Pton4) : Type 0 where
  pub count : length s.octets_before + (if s.saw_digit then 1 else 0) ≡ s.octets
  pub at_most_4 : s.octets ≤ 4
  pub byte : s.at_tp < 256
  pub dots : length s.octets_before ≤ 3
  pub fresh : s.saw_digit ≡ false → s.at_tp ≡ 0
  pub bytes : AllBytes s.octets_before

pub start-Invariant : Invariant pton4_start
start-Invariant = record {
  count = refl;
  at_most_4 = omega arith;
  byte = omega arith;
  dots = omega arith;
  fresh = λ f. refl;
  bytes = tt;
}

pub bind_some :
    {A B : Type 0} (o : Option A) (f : A → Option B) (b : B)
    → (o >>= f) ≡ some b
    → (a : A) × (o ≡ some a) × (f a ≡ some b)
bind_some none f b e = cc
bind_some (some a) f b e = (a, refl, e)

dotted-snoc : (vs : List ℕ) (v : ℕ) → dotted (vs ++ v ∷ []) ≡ dotted vs ++ (print_u v ++ 46 ∷ [])
dotted-snoc [] v = refl
dotted-snoc (w ∷ vs) v =
    ap (λ z. print_u w ++ 46 ∷ z) (dotted-snoc vs v)
    ∙ sym (append_assoc (print_u w) (46 ∷ dotted vs) (print_u v ++ 46 ∷ []))

-- One more digit.
print_u-snoc :
    (v d : ℕ)
    → 0 < v
    → d < 10
    → v * 10 + d < 256
    → print_u (v * 10 + d) ≡ print_u v ++ (48 + d) ∷ []
print_u-snoc v d ne small fits = elim (Bool-cases (ltb v 10)) [
  | inl one ↦ ground (arith, print_u_one v, print_u_two (v * 10 + d))
  | inr two ↦ ground (arith, print_u_two v, print_u_three (v * 10 + d))
]

-- The three rounds that go on: a later digit of an octet, its first digit, a dot.
abbrev pub GoesOn : ℕ → Pton4 → Pton4 → Type 0
GoesOn ch s s' =
    ((d : ℕ) × (ch ≡ 48 + d)
      × (d < 10)
      × (s.saw_digit ≡ true)
      × (0 < s.at_tp)
      × (s.at_tp * 10 + d < 256)
      × (s' ≡ record s { at_tp = s.at_tp * 10 + d }))
    ⊎ ((d : ℕ) × (ch ≡ 48 + d)
        × (d < 10)
        × (s.saw_digit ≡ false)
        × (s.octets < 4)
        × (s' ≡ record s { at_tp = s.at_tp * 10 + d; octets = s.octets + 1; saw_digit = true }))
    ⊎ ((ch ≡ 46)
        × (s.saw_digit ≡ true)
        × (s.octets ≢ 4)
        × (s' ≡ record s {
          octets_before = s.octets_before ++ s.at_tp ∷ [];
          at_tp = 0;
          saw_digit = false;
        }))

pub step-GoesOn : (ch : ℕ) (s s' : Pton4) → pton4_step ch s ≡ some s' → GoesOn ch s s'
unfolding pton4_step
step-GoesOn ch s s' e = by_digit (strchr digits ch) refl
  where
    by_digit : (found : Option ℕ) → strchr digits ch ≡ found → GoesOn ch s s'
    by_digit none missing = inr (
        inr (
          ground (arith, missing, e),
          ground (arith, missing, e),
          ground (arith, missing, e),
          ground (arith, missing, e),
        ))
    by_digit (some d) found =
        let (c, small) = digit_of_strchr ch d found in
        elim (Bool-cases s.saw_digit) [
          | inl saw ↦ inl (
            d,
            c,
            small,
            saw,
            ground (arith, found, e),
            ground (arith, found, e),
            ground (arith, found, e),
          )
          | inr saw ↦
              inr (inl (d, c, small, saw, ground (arith, found, e), ground (arith, found, e)))
        ]

-- One round reads one more character.
pub step_read :
    (ch : ℕ) (s s' : Pton4)
    → Invariant s
    → GoesOn ch s s'
    → Invariant s' × (read_text s ++ ch ∷ [] ≡ read_text s')
step_read ch s s' inv (inl (d, c, small, saw, ne, fits, e)) =
    let next : Pton4 = record s { at_tp = s.at_tp * 10 + d } in
    subst (λ t. Invariant t × (read_text s ++ ch ∷ [] ≡ read_text t)) (sym e)
      (
        record {
          count = inv.count;
          at_most_4 = inv.at_most_4;
          byte = fits;
          dots = inv.dots;
          fresh = λ f. ground (arith, f);
          bytes = inv.bytes;
        },
        ap (λ t. t ++ ch ∷ []) (read_text_saw s saw)
            ∙ append_assoc (dotted s.octets_before) (print_u s.at_tp) (ch ∷ [])
            ∙ ap (λ t. dotted s.octets_before ++ t)
                (ap (λ k. print_u s.at_tp ++ k ∷ []) c ∙ sym (print_u-snoc s.at_tp d ne small fits))
            ∙ sym (read_text_saw next saw),
      )
step_read ch s s' inv (inr (inl (d, c, small, saw, lt, e))) =
    let next : Pton4 = record s {
      at_tp = s.at_tp * 10 + d;
      octets = s.octets + 1;
      saw_digit = true;
    } in
    let value : s.at_tp * 10 + d ≡ d = omega (arith, inv.fresh saw) in
    subst (λ t. Invariant t × (read_text s ++ ch ∷ [] ≡ read_text t)) (sym e)
      (
        record {
          count = ground (arith, inv.count, saw);
          at_most_4 = omega arith;
          byte = omega arith;
          dots = inv.dots;
          fresh = λ f. ground (arith, f);
          bytes = inv.bytes;
        },
        ap (λ t. t ++ ch ∷ []) (read_text_dot s saw)
            ∙ ap (λ t. dotted s.octets_before ++ t)
                (ap (λ k. k ∷ []) c ∙ sym (print_u_one d small) ∙ ap print_u (sym value)),
      )
step_read ch s s' inv (inr (inr (c, saw, ne, e))) =
    let next : Pton4 = record s {
      octets_before = s.octets_before ++ s.at_tp ∷ [];
      at_tp = 0;
      saw_digit = false;
    } in
    let with_this : length s.octets_before + 1 ≡ s.octets = ground (arith, inv.count, saw) in
    subst (λ t. Invariant t × (read_text s ++ ch ∷ [] ≡ read_text t)) (sym e)
      (
        record {
          count = ground (arith, inv.count, saw, length-append s.octets_before (s.at_tp ∷ []));
          at_most_4 = inv.at_most_4;
          byte = omega arith;
          dots = omega (arith, length-append s.octets_before (s.at_tp ∷ []), with_this);
          fresh = λ f. refl;
          bytes = AllBytes-append s.octets_before (s.at_tp ∷ []) inv.bytes (inv.byte, tt);
        },
        ap (λ t. t ++ ch ∷ []) (read_text_saw s saw)
            ∙ append_assoc (dotted s.octets_before) (print_u s.at_tp) (ch ∷ [])
            ∙ ap (λ k. dotted s.octets_before ++ (print_u s.at_tp ++ k ∷ [])) c
            ∙ sym (dotted-snoc s.octets_before s.at_tp)
            ∙ sym (append-nil (dotted (s.octets_before ++ s.at_tp ∷ []))),
      )
