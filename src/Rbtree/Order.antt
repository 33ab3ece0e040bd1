-- ===== src/Rbtree/Order.antt =====
-- zbaselib_rbtree.c: the order of the keys by the client's comparison function.
use zbaselib.Prelude.{
  Bool, true, false, not, ◌&&◌, List, [], ◌∷◌, ◌++◌, ◌≡◌, refl, sym, ◌∙◌, ap, arith, append-nil,
  append_assoc,
}
use zbaselib.Rbtree.Store.{Ptr, left, right}
use zbaselib.Rbtree.Defs.{Compare, is_negative}
use zbaselib.Rbtree.Tree.{
  Tree, branch, frame, PathUp, plug, keys, nodes, keys_of, keys_of-append, keys-nodes,
}

abbrev pub comes_before : Compare → (a b : Ptr) → Bool
comes_before cmp a b = is_negative (cmp a b)

-- What a comparison function has to be: "not before" is transitive, and "before" goes one way.
pub record IsOrder (cmp : Compare) : Type 0 where
  pub through :
      (a b c : Ptr)
      → comes_before cmp b a ≡ false
      → comes_before cmp c b ≡ false
      → comes_before cmp c a ≡ false
  pub one_way : (a b : Ptr) → comes_before cmp a b ≡ true → comes_before cmp b a ≡ false

unfoldable pub all : (Ptr → Bool) → List Ptr → Bool
all p [] = true
all p (x ∷ xs) = p x && all p xs

unfoldable pub sorted : Compare → List Ptr → Bool
unfolding all
sorted cmp [] = true
sorted cmp (x ∷ xs) = all (λ e. not (comes_before cmp e x)) xs && sorted cmp xs

pub all-append : (p : Ptr → Bool) → (xs ys : List Ptr) → all p (xs ++ ys) ≡ (all p xs && all p ys)
unfolding all
all-append p [] ys = refl
all-append p (x ∷ xs) ys = ground (arith, all-append p xs ys)

pub all_mono :
    (p q : Ptr → Bool)
    → (xs : List Ptr) → ((e : Ptr) → p e ≡ true → q e ≡ true)
    → all p xs ≡ true
    → all q xs ≡ true
unfolding all
all_mono p q [] f h = refl
all_mono p q (x ∷ xs) f h = ground (arith, f x, all_mono p q xs f)

pub sorted-around :
    (cmp : Compare)
    → (xs : List Ptr) → (k : Ptr) → (ys : List Ptr) → sorted cmp (xs ++ (k ∷ ys)) ≡ true
    → (all (λ e. not (comes_before cmp k e)) xs ≡ true)
      × (all (λ e. not (comes_before cmp e k)) ys ≡ true)
      × (sorted cmp xs ≡ true)
      × (sorted cmp ys ≡ true)
unfolding sorted all
sorted-around cmp [] k ys h = (refl, ground arith, refl, ground arith)
sorted-around cmp (x ∷ xs) k ys h =
    let e = all-append (λ e. not (comes_before cmp e x)) xs (k ∷ ys) in
    let h' : sorted cmp (xs ++ (k ∷ ys)) ≡ true = ground arith in
    let (a, b, c, d) = sorted-around cmp xs k ys h' in
    (ground (arith, e, a), b, ground (arith, e, c), d)

-- The list with a key put where it belongs stays sorted.
pub sorted_insert :
    (cmp : Compare)
    → IsOrder cmp
    → (key : Ptr) → (xs ys : List Ptr) → all (λ e. not (comes_before cmp key e)) xs ≡ true
    → all (comes_before cmp key) ys ≡ true
    → sorted cmp (xs ++ ys) ≡ true
    → sorted cmp (xs ++ (key ∷ ys)) ≡ true
unfolding sorted all
sorted_insert cmp o key [] ys hx hy h = ground (
  arith,
  all_mono (comes_before cmp key) (λ e. not (comes_before cmp e key)) ys
      (λ e he. ground (arith, o.one_way key e)),
)
sorted_insert cmp o key (x ∷ xs) ys hx hy h = ground (
  arith,
  sorted_insert cmp o key xs ys,
  all-append (λ e. not (comes_before cmp e x)) xs ys,
  all-append (λ e. not (comes_before cmp e x)) xs (key ∷ ys),
)

-- The keys on the two sides of a path
unfoldable pub lower : PathUp → List Ptr
lower [] = []
lower (frame left p k c sib ∷ fs) = lower fs
lower (frame right p k c sib ∷ fs) = lower fs ++ (keys sib ++ (k ∷ []))

unfoldable pub upper : PathUp → List Ptr
upper [] = []
upper (frame left p k c sib ∷ fs) = k ∷ (keys sib ++ upper fs)
upper (frame right p k c sib ∷ fs) = upper fs

-- The keys of a tree, by a path
pub keys-plug : (t : Tree) → (fs : PathUp) → keys (plug t fs) ≡ lower fs ++ (keys t ++ upper fs)
unfolding lower upper plug keys
keys-plug t [] = sym (append-nil (keys t))
keys-plug t (frame left p k c sib ∷ fs) =
    keys-plug (branch t p k c sib) fs
    ∙ ap (λ l. lower fs ++ l) (append_assoc (keys t) (k ∷ keys sib) (upper fs))
keys-plug t (frame right p k c sib ∷ fs) = keys-plug (branch sib p k c t) fs ∙ simp append_assoc

-- The nodes on the two sides of a path
unfoldable pub lower_nodes : PathUp → List (Ptr × Ptr)
lower_nodes [] = []
lower_nodes (frame left p k c sib ∷ fs) = lower_nodes fs
lower_nodes (frame right p k c sib ∷ fs) = lower_nodes fs ++ (nodes sib ++ ((p, k) ∷ []))

unfoldable pub upper_nodes : PathUp → List (Ptr × Ptr)
upper_nodes [] = []
upper_nodes (frame left p k c sib ∷ fs) = (p, k) ∷ (nodes sib ++ upper_nodes fs)
upper_nodes (frame right p k c sib ∷ fs) = upper_nodes fs

pub nodes-plug :
    (t : Tree) → (fs : PathUp) → nodes (plug t fs) ≡ lower_nodes fs ++ (nodes t ++ upper_nodes fs)
unfolding lower_nodes upper_nodes plug nodes
nodes-plug t [] = sym (append-nil (nodes t))
nodes-plug t (frame left p k c sib ∷ fs) =
    nodes-plug (branch t p k c sib) fs
    ∙ ap (λ l. lower_nodes fs ++ l) (append_assoc (nodes t) ((p, k) ∷ nodes sib) (upper_nodes fs))
nodes-plug t (frame right p k c sib ∷ fs) = nodes-plug (branch sib p k c t) fs ∙ simp append_assoc

pub keys_of-lower : (fs : PathUp) → keys_of (lower_nodes fs) ≡ lower fs
unfolding lower_nodes lower
keys_of-lower [] = refl
keys_of-lower (frame left p k c sib ∷ fs) = keys_of-lower fs
keys_of-lower (frame right p k c sib ∷ fs) =
    keys_of-append (lower_nodes fs) (nodes sib ++ ((p, k) ∷ []))
    ∙ ap (λ l. keys_of (lower_nodes fs) ++ l) (keys_of-append (nodes sib) ((p, k) ∷ []))
    ∙ ap (λ l. l ++ (keys_of (nodes sib) ++ (k ∷ []))) (keys_of-lower fs)
    ∙ ap (λ l. lower fs ++ (l ++ (k ∷ []))) (sym (keys-nodes sib))

pub keys_of-upper : (fs : PathUp) → keys_of (upper_nodes fs) ≡ upper fs
unfolding upper_nodes upper
keys_of-upper [] = refl
keys_of-upper (frame left p k c sib ∷ fs) =
    ap (λ l. k ∷ l) (keys_of-append (nodes sib) (upper_nodes fs))
    ∙ ap (λ l. k ∷ (l ++ keys_of (upper_nodes fs))) (sym (keys-nodes sib))
    ∙ ap (λ l. k ∷ (keys sib ++ l)) (keys_of-upper fs)
keys_of-upper (frame right p k c sib ∷ fs) = keys_of-upper fs
