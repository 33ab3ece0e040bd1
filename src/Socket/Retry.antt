-- ===== src/Socket/Retry.antt =====
-- zbaselib_socket.c: `zbaselib_socket_sendn_retry` returns, and tells how many bytes the system took.
use zbaselib.Prelude.{
  ℕ, zero, suc, ◌+◌, ◌-◌, ◌≤◌, ◌&&◌, Bool, ◌^◌, ◌<◌, ◌≡◌, refl, true, false, some, List, [], ◌∷◌,
  ◌++◌, arith, leb, length, take, drop, length-take, length-drop, length-append, min, append-nil,
  append_assoc, ap, ◌∙◌, sym, Bool-cases, inl, inr, ◌⊎◌,
}
use zbaselib.Prelude.Int.{pos, negsuc}
use zbaselib.Socket.Laws.{take_add}
use zbaselib.Socket.Defs.{SendAnswer, wrote, refused, Sent, sendn_retry, retry_loop}

-- Every result of send that is no refusal is positive.
abbrev pub IsPositive : List SendAnswer → Type 0
IsPositive [] = Unit
IsPositive (wrote n ∷ answers) = (0 < n) × IsPositive answers
IsPositive (refused again ∷ answers) = IsPositive answers

-- The answers before the end of a call: no broken connection, the refusals among them, and the bytes taken
unfoldable pub calm : List SendAnswer → Bool
calm [] = true
calm (wrote n ∷ us) = calm us
calm (refused again ∷ us) = again && calm us

unfoldable pub tries : List SendAnswer → ℕ
tries [] = 0
tries (wrote n ∷ us) = tries us
tries (refused again ∷ us) = suc (tries us)

unfoldable pub taken : List SendAnswer → ℕ
taken [] = 0
taken (wrote n ∷ us) = n + taken us
taken (refused again ∷ us) = taken us

-- A run from `handed` on, with `ptr` to send, that ends because all is sent, because the connection broke, or
-- with the last try.
pub record Told (answers : List SendAnswer) (size retry : ℕ) (ptr handed : List ℕ) (s : Sent)
    : Type 0 where
  pub us : List SendAnswer
  pub calm_eq : calm us ≡ true
  pub few : tries us ≤ retry - 1
  pub handed_eq : s.handed ≡ handed ++ take (taken us) ptr
  pub ended :
      ((answers ≡ us ++ s.unused) × (length ptr ≤ taken us) × (s.result ≡ pos size))
      ⊎ ((answers ≡ us ++ (refused false ∷ s.unused))
          × (taken us < length ptr)
          × (s.result ≡ negsuc 0))
      ⊎ ((answers ≡ us ++ (refused true ∷ s.unused))
          × (taken us < length ptr)
          × (tries us ≡ retry - 1)
          × (s.result ≡ pos (length handed + taken us)))

wrote-Told :
    (n : ℕ) (answers : List SendAnswer) (size retry : ℕ) (ptr handed : List ℕ) (s : Sent)
    → Told answers size retry (drop n ptr) (handed ++ take n ptr) s
    → Told (wrote n ∷ answers) size retry ptr handed s
unfolding calm tries taken
wrote-Told n answers size retry ptr handed s t =
    let more : length (handed ++ take n ptr) ≡ length handed + min n (length ptr) =
      omega (arith, length-append handed (take n ptr), length-take n ptr) in
    record {
      us = wrote n ∷ t.us;
      calm_eq = t.calm_eq;
      few = t.few;
      handed_eq =
          t.handed_eq
          ∙ append_assoc handed (take n ptr) (take (taken t.us) (drop n ptr))
          ∙ ap (λ z. handed ++ z) (take_add n (taken t.us) ptr);
      ended = elim t.ended [
        | inl (split, all, e) ↦
            inl (ap (λ l. wrote n ∷ l) split, omega (arith, length-drop n ptr), e)
        | inr (inl (split, some_left, e)) ↦
            inr (inl (ap (λ l. wrote n ∷ l) split, omega (arith, length-drop n ptr), e))
        | inr (inr (split, some_left, last, e)) ↦ inr (
            inr (
              ap (λ l. wrote n ∷ l) split,
              omega (arith, length-drop n ptr),
              last,
              e ∙ ap pos (omega (arith, more, some_left, length-drop n ptr)),
            ))
      ];
    }

refused-Told :
    (answers : List SendAnswer) (size retry : ℕ) (ptr handed : List ℕ) (s : Sent)
    → 1 < retry
    → Told answers size (retry - 1) ptr handed s
    → Told (refused true ∷ answers) size retry ptr handed s
unfolding calm tries taken
refused-Told answers size retry ptr handed s lt t = record {
  us = refused true ∷ t.us;
  calm_eq = ground (arith, t.calm_eq);
  few = omega (arith, t.few);
  handed_eq = t.handed_eq;
  ended = elim t.ended [
    | inl (split, all, e) ↦ inl (ap (λ l. refused true ∷ l) split, all, e)
    | inr (inl (split, some_left, e)) ↦ inr (inl (ap (λ l. refused true ∷ l) split, some_left, e))
    | inr (inr (split, some_left, last, e)) ↦
        inr (inr (ap (λ l. refused true ∷ l) split, some_left, omega (arith, last), e))
  ];
}

-- Each answer takes a byte or one of the tries.
retry_loop-Told :
    (answers : List SendAnswer) (size retry : ℕ) (ptr : List ℕ) (nleft : ℕ) (handed : List ℕ)
    → IsPositive answers
    → length ptr ≡ nleft
    → length handed + nleft ≡ size
    → size < 2 ^ 31
    → nleft + retry < length answers
    → (s : Sent) × (retry_loop answers size retry ptr nleft handed ≡ some s)
      × Told answers size retry ptr handed s
unfolding retry_loop calm tries taken
retry_loop-Told answers size retry ptr zero handed p e t small enough = (
  _,
  refl,
  record {
    us = [];
    calm_eq = refl;
    few = omega arith;
    handed_eq = sym (append-nil handed);
    ended = inl (refl, omega (arith, e), ground arith);
  },
)
retry_loop-Told [] size retry ptr (suc nleft) handed p e t small enough = absurd (omega arith)
retry_loop-Told (wrote n ∷ answers) size retry ptr (suc nleft) handed (more, p) e t small enough =
    let (s, run, told) =
      retry_loop-Told answers size retry (drop n ptr) (suc nleft - n) (handed ++ take n ptr) p
        (omega (arith, length-drop n ptr))
        (omega (arith, length-append handed (take n ptr), length-take n ptr)) small (omega arith) in
    (s, run, wrote-Told n answers size retry ptr handed s told)
retry_loop-Told (refused true ∷ answers) size retry ptr (suc nleft) handed p e t small enough =
    elim (Bool-cases (leb retry 1)) [
      | inl over ↦ (
        record { result = pos (size - suc nleft); handed = handed; unused = answers },
        ground arith,
        record {
          us = [];
          calm_eq = refl;
          few = omega arith;
          handed_eq = sym (append-nil handed);
          ended = inr (inr (refl, omega (arith, e), ground (arith, over), ap pos (omega arith)));
        },
      )
      | inr again ↦
          let (s, run, told) =
            retry_loop-Told answers size (retry - 1) ptr (suc nleft) handed p e t small
              (ground arith) in
          (
            s,
            ground arith,
            refused-Told answers size retry ptr handed s (ground (arith, again)) told,
          )
    ]
retry_loop-Told (refused false ∷ answers) size retry ptr (suc nleft) handed p e t small enough = (
  _,
  refl,
  record {
    us = [];
    calm_eq = refl;
    few = omega arith;
    handed_eq = sym (append-nil handed);
    ended = inr (inl (refl, omega (arith, e), refl));
  },
)

-- `zbaselib_socket_sendn_retry` of fewer than 2^31 bytes returns at the latest after as many answers of
-- send as there are bytes and tries, and one more, where send takes a byte at least or refuses.
-- It has handed over in order just the bytes that send took. It returns the size when all are taken, -1 at the
-- first refusal that is a broken connection, and the number taken at the last try, which is the first refusal
-- where `retry` is 0.
pub sendn_retry-Told :
    (answers : List SendAnswer) (buf : List ℕ) (retry : ℕ)
    → IsPositive answers
    → length buf < 2 ^ 31
    → length buf + retry < length answers
    → (s : Sent) × (sendn_retry answers buf (length buf) (pos retry) ≡ some s)
      × Told answers (length buf) retry buf [] s
unfolding sendn_retry
sendn_retry-Told answers buf retry p small enough =
    let (s, run, told) =
      retry_loop-Told answers (length buf) retry buf (length buf) [] p refl (omega arith) small
        enough in
    (s, ground arith, told)
