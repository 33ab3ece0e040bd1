-- ===== src/Inet/V6/Bounds.antt =====
-- zbaselib_socket.c: `inet_pton6` stays inside of its 16 bytes.
use zbaselib.Prelude.{
  ℕ, ◌+◌, ◌/◌, ◌%◌, ◌≤◌, ◌≡◌, refl, sym, ap, subst, Option, none, some, List, [], ◌∷◌, ◌==◌, ◌&&◌,
  ltb, leb, Bool, true, false, if◌then◌else◌, length, arith, ◌>>=◌,
}
use zbaselib.Prelude.Block.{write_at, write_at-ok, splice, length-splice}
use zbaselib.Inet.V4.{pton4}
use zbaselib.Inet.V4.Parse.{pton4-IsPrinted}
use zbaselib.Inet.Bytes.{AllBytes, AllBytes-splice}
use zbaselib.Inet.V6.Read.{
  Answer, accepted, refused, fault, Pton6, Round, next, broken, over, xdigit, put_val, on_xdigit,
  on_colon, on_dot, pton6_step, pton6_loop,
}

-- An answer that is no fault, with 16 bytes where there are some.
pub data IsServed : Answer → Type 0 where
  refuses : IsServed refused
  accepts : {bytes : List ℕ} → length bytes ≡ 16 → AllBytes bytes → IsServed (accepted bytes)

-- What holds at the head of the loop.
pub record Inside (s : Pton6) : Type 0 where
  pub whole : length s.tmp ≡ 16
  pub bytes : AllBytes s.tmp
  pub tp_in : s.tp ≤ 16
  pub colon_in : (c : ℕ) → s.colonp ≡ some c → c ≤ s.tp

pub data RoundInside : Round → Type 0 where
  goes_on : {s : Pton6} → Inside s → RoundInside (next s)
  breaks : {s : Pton6} → Inside s → RoundInside (broken s)
  ends : {answer : Answer} → IsServed answer → RoundInside (over answer)

-- A store inside of the 16 bytes.
pub stored :
    (tmp : List ℕ) (off : ℕ) (xs : List ℕ)
    → length tmp ≡ 16
    → AllBytes tmp
    → AllBytes xs
    → off + length xs ≤ 16
    → (tmp' : List ℕ) × (write_at tmp off xs ≡ some tmp') × (length tmp' ≡ 16) × AllBytes tmp'
stored tmp off xs len all new fits = (
  splice tmp off xs,
  write_at-ok tmp off xs (omega arith),
  omega (arith, length-splice tmp off xs),
  AllBytes-splice tmp off xs all new,
)

pub put_val-Inside :
    (s : Pton6) → Inside s → s.tp + 2 ≤ 16 → (s' : Pton6) × (put_val s ≡ some s') × Inside s'
unfolding put_val
put_val-Inside s inv fits =
    let xs : List ℕ = s.val / 256 % 256 ∷ s.val % 256 ∷ [] in
    let (tmp', run, len, all) =
      stored s.tmp s.tp xs inv.whole inv.bytes (omega arith, (omega arith, tt)) fits in
    (
      record s { tmp = tmp'; tp = s.tp + 2 },
      ap (λ o. o >>= λ tmp'. some (record s { tmp = tmp'; tp = s.tp + 2 })) run,
      record {
        whole = len;
        bytes = all;
        tp_in = fits;
        colon_in = λ c e. omega (arith, inv.colon_in c e);
      },
    )

pton4-four : (src bytes : List ℕ) → pton4 src ≡ some bytes → (length bytes ≡ 4) × AllBytes bytes
pton4-four src bytes e =
    let (a, b, c, d, is, ha, hb, hc, hd, _) = pton4-IsPrinted src bytes e in
    subst (λ bytes. (length bytes ≡ 4) × AllBytes bytes) (sym is) (refl, (ha, (hb, (hc, (hd, tt)))))

-- A test, for a predicate on what it chooses.
pub by_test :
    {A : Type 0} (P : A → Type 0) (t : Bool) (a b : A)
    → (t ≡ true → P a)
    → (t ≡ false → P b)
    → P (if t then a else b)
by_test P true a b yes_ no_ = yes_ refl
by_test P false a b yes_ no_ = no_ refl

on_xdigit-Inside : (d : ℕ) (s : Pton6) → Inside s → RoundInside (on_xdigit d s)
unfolding on_xdigit
on_xdigit-Inside d s inv =
    by_test RoundInside (ltb 4 (s.seen_xdigits + 1)) _ _ (λ h. ends refuses)
      (λ h. goes_on (record {
        whole = inv.whole;
        bytes = inv.bytes;
        tp_in = inv.tp_in;
        colon_in = inv.colon_in;
      }))

on_colon-Inside : (rest : List ℕ) (s : Pton6) → Inside s → RoundInside (on_colon rest s)
unfolding on_colon
on_colon-Inside rest s inv =
    by_test RoundInside (s.seen_xdigits == 0) _ _ (λ h. first s.colonp) (λ h. word rest)
  where
    first :
        (colonp : Option ℕ)
        → RoundInside (elim colonp [
          | some c ↦ over refused
          | none ↦ next (record s { curtok = rest; colonp = some s.tp })
        ])
    first (some c) = ends refuses
    first none = goes_on (record {
      whole = inv.whole;
      bytes = inv.bytes;
      tp_in = inv.tp_in;
      colon_in = λ c e. ground (arith, e);
    })

    word :
        (rest : List ℕ)
        → RoundInside (elim rest [
          | [] ↦ over refused
          | x ∷ xs ↦ if ltb 16 (s.tp + 2) then over refused else (elim (put_val s) [
            | none ↦ over fault
            | some s' ↦ next (record s' { curtok = x ∷ xs; seen_xdigits = 0; val = 0 })
          ])
        ])
    word [] = ends refuses
    word (x ∷ xs) =
        by_test RoundInside (ltb 16 (s.tp + 2)) _ _ (λ h. ends refuses)
          λ h.
            let (s', run, inv') = put_val-Inside s inv (ground arith) in
            subst
              (λ o. RoundInside (elim o [
                | none ↦ over fault
                | some s' ↦ next (record s' { curtok = x ∷ xs; seen_xdigits = 0; val = 0 })
              ]))
              (sym run)
              (goes_on (record {
                whole = inv'.whole;
                bytes = inv'.bytes;
                tp_in = inv'.tp_in;
                colon_in = inv'.colon_in;
              }))

on_dot-Inside : (s : Pton6) → Inside s → s.tp + 4 ≤ 16 → RoundInside (on_dot s)
unfolding on_dot
on_dot-Inside s inv fits = by_pton4 (pton4 s.curtok) refl
  where
    by_pton4 :
        (o : Option (List ℕ))
        → pton4 s.curtok ≡ o
        → RoundInside (elim o [
          | none ↦ over refused
          | some bytes ↦ (elim (write_at s.tmp s.tp bytes) [
            | none ↦ over fault
            | some tmp' ↦ broken (record s { tmp = tmp'; tp = s.tp + 4; seen_xdigits = 0 })
          ])
        ])
    by_pton4 none e = ends refuses
    by_pton4 (some bytes) e =
        let (four, all) = pton4-four s.curtok bytes e in
        let (tmp', run, len, all') =
          stored s.tmp s.tp bytes inv.whole inv.bytes all (omega arith) in
        subst
          (λ o. RoundInside (elim o [
            | none ↦ over fault
            | some tmp' ↦ broken (record s { tmp = tmp'; tp = s.tp + 4; seen_xdigits = 0 })
          ]))
          (sym run)
          (breaks (record {
            whole = len;
            bytes = all';
            tp_in = fits;
            colon_in = λ c e. omega (arith, inv.colon_in c e);
          }))

step-Inside : (ch : ℕ) (rest : List ℕ) (s : Pton6) → Inside s → RoundInside (pton6_step ch rest s)
unfolding pton6_step
step-Inside ch rest s inv = by_xdigit (xdigit ch)
  where
    by_xdigit :
        (o : Option ℕ)
        → RoundInside (elim o [
          | some d ↦ on_xdigit d s
          | none ↦
              if ch == 58
              then on_colon rest s
              else if (ch == 46) && leb (s.tp + 4) 16
              then on_dot s
              else over refused
        ])
    by_xdigit (some d) = on_xdigit-Inside d s inv
    by_xdigit none =
        by_test RoundInside (ch == 58) _ _ (λ h. on_colon-Inside rest s inv)
          λ h.
            by_test RoundInside ((ch == 46) && leb (s.tp + 4) 16) _ _
              (λ h'. on_dot-Inside s inv (ground arith)) (λ h'. ends refuses)

pub loop-Inside : (src : List ℕ) (s : Pton6) → Inside s → RoundInside (pton6_loop src s)
unfolding pton6_loop
loop-Inside [] s inv = goes_on inv
loop-Inside (ch ∷ rest) s inv =
    by_round (pton6_step ch rest s) (step-Inside ch rest s inv)
      (λ s' inv'. loop-Inside rest s' inv')
  where
    by_round :
        (r : Round)
        → RoundInside r
        → ((s' : Pton6) → Inside s' → RoundInside (pton6_loop rest s'))
        → RoundInside (elim r [
          | next s' ↦ pton6_loop rest s'
          | broken s' ↦ broken s'
          | over answer ↦ over answer
        ])
    by_round (next s') (goes_on inv') again = again s' inv'
    by_round (broken s') (breaks inv') again = breaks inv'
    by_round (over answer) (ends served) again = ends served
