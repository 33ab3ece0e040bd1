-- ===== src/Inet/V4/Parse.antt =====
-- zbaselib_socket.c: what `inet_pton4` reads is what `inet_ntop4` prints of the result.
use zbaselib.Prelude.{
  ℕ, ◌<◌, ◌≡◌, refl, sym, ap, ◌∙◌, none, some, List, [], ◌∷◌, ◌++◌, ltb, if◌then◌else◌, true,
  length, arith, append_assoc, append-nil, subst,
}
use zbaselib.Inet.Chars.{print_u}
use zbaselib.Inet.Bytes.{AllBytes}
use zbaselib.Inet.V4.{Pton4, pton4_step, pton4_loop, pton4, pton4_start, print4}
use zbaselib.Inet.V4.Rounds.{
  dotted, read_text, read_text_saw, Invariant, start-Invariant, bind_some, step-GoesOn, step_read,
}

loop_read :
    (src : List ℕ) (s s' : Pton4)
    → Invariant s
    → pton4_loop src s ≡ some s'
    → Invariant s' × (read_text s ++ src ≡ read_text s')
unfolding pton4_loop
loop_read [] s s' inv e =
    let same : s ≡ s' = ground (arith, e) in
    subst (λ t. Invariant t × (read_text s ++ [] ≡ read_text t)) same
      (inv, append-nil (read_text s))
loop_read (ch ∷ src) s s' inv e =
    let (t, step, rest) = bind_some (pton4_step ch s) (λ t. pton4_loop src t) s' e in
    let (inv', one) = step_read ch s t inv (step-GoesOn ch s t step) in
    let (inv_end, all) = loop_read src t s' inv' rest in
    (inv_end, sym (append_assoc (read_text s) (ch ∷ []) src) ∙ ap (λ z. z ++ src) one ∙ all)

-- What is read, where there are four octets in the end.
dotted-print4 : (a b c d : ℕ) → dotted (a ∷ b ∷ c ∷ []) ++ print_u d ≡ print4 a b c d
unfolding print4
dotted-print4 a b c d =
    append_assoc (print_u a) (46 ∷ (print_u b ++ 46 ∷ (print_u c ++ 46 ∷ []))) (print_u d)
    ∙ ap (λ z. print_u a ++ 46 ∷ z)
        (append_assoc (print_u b) (46 ∷ (print_u c ++ 46 ∷ [])) (print_u d))
    ∙ ap (λ z. print_u a ++ 46 ∷ (print_u b ++ 46 ∷ z))
        (append_assoc (print_u c) (46 ∷ []) (print_u d))

abbrev pub IsPrinted : List ℕ → List ℕ → Type 0
IsPrinted src bytes =
    (a b c d : ℕ) × (bytes ≡ a ∷ b ∷ c ∷ d ∷ [])
    × (a < 256)
    × (b < 256)
    × (c < 256)
    × (d < 256)
    × (src ≡ print4 a b c d)

three_before :
    (vs : List ℕ) (v : ℕ) (src : List ℕ)
    → length vs ≡ 3
    → AllBytes vs
    → v < 256
    → src ≡ dotted vs ++ print_u v
    → IsPrinted src (vs ++ v ∷ [])
three_before [] v src len all lt e = absurd (omega arith)
three_before (a ∷ []) v src len all lt e = absurd (omega arith)
three_before (a ∷ b ∷ []) v src len all lt e = absurd (omega arith)
three_before (a ∷ b ∷ c ∷ []) v src len (ha, (hb, (hc, _))) lt e =
    (a, b, c, v, refl, ha, hb, hc, lt, e ∙ dotted-print4 a b c v)
three_before (a ∷ b ∷ c ∷ d ∷ vs) v src len all lt e = absurd (omega arith)

-- Any text that `inet_pton4` accepts is the one that `inet_ntop4` prints of the four bytes it stores:
-- four decimal numbers below 256 with a dot between two of them, and none with a zero in front.
pub pton4-IsPrinted : (src bytes : List ℕ) → pton4 src ≡ some bytes → IsPrinted src bytes
unfolding pton4
pton4-IsPrinted src bytes e =
    let (s, run, last) =
      bind_some (pton4_loop src pton4_start)
        (λ s. if ltb s.octets 4 then none else some (s.octets_before ++ s.at_tp ∷ [])) bytes e in
    let (inv, text) = loop_read src pton4_start s start-Invariant run in
    let four : s.octets ≡ 4 = ground (arith, last, inv) in
    let saw : s.saw_digit ≡ true = ground (arith, inv) in
    let stored : s.octets_before ++ s.at_tp ∷ [] ≡ bytes = ground (arith, last) in
    subst (IsPrinted src) stored (
      three_before s.octets_before s.at_tp src (ground (arith, inv)) inv.bytes inv.byte
        (text ∙ read_text_saw s saw))
