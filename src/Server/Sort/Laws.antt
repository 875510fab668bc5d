-- ===== src/Server/Sort/Laws.antt =====
-- insertionSort: order, permutation and stability, by the part that is sorted so far.
use mathlib.Core.List.{reverse, reverse-cons, reverse-reverse, reverse_perm, Perm, perm_middle}
use mathlib.Core.List.Perm
use so.Common.{
  false, if◌then◌else◌, List, [], ◌∷◌, ◌++◌, Bytes, str_gt, str_eq, str_eq_iff, str_gt_asymm,
  str_le_trans, str_le_refl, All, ◌≡◌, refl, ◌∙◌, arith, append_assoc, append-nil, Bool-cases, inl,
  inr,
}
use so.Server.Sort.{Pair, shift, sort_loop, insertion_sort}

-- No pair has a greater key than one behind it.
abbrev pub IsSorted : List Pair → Type 0
IsSorted [] = Unit
IsSorted (p ∷ ps) = All (λ q. str_gt p.0 q.0 ≡ false) ps × IsSorted ps

abbrev IsBackwards : List Pair → Type 0
IsBackwards [] = Unit
IsBackwards (p ∷ ps) = All (λ q. str_gt q.0 p.0 ≡ false) ps × IsBackwards ps

-- Below a pair that is not greater, all are.
All-below :
    (p q : Pair) (qs : List Pair)
    → str_gt q.0 p.0 ≡ false
    → All (λ r. str_gt r.0 q.0 ≡ false) qs
    → All (λ r. str_gt r.0 p.0 ≡ false) qs
All-below p q [] h k = tt
All-below p q (r ∷ qs) h k = (str_le_trans r.0 q.0 p.0 k.0 h, All-below p q qs h k.1)

All-below-shift :
    (p q : Pair) (qs : List Pair)
    → str_gt p.0 q.0 ≡ false
    → All (λ r. str_gt r.0 q.0 ≡ false) qs
    → All (λ r. str_gt r.0 q.0 ≡ false) (shift p qs)
unfolding shift
All-below-shift p q [] h k = (h, tt)
All-below-shift p q (r ∷ qs) h k = elim (Bool-cases (str_gt r.0 p.0)) [
  | inl up ↦ rw up (k.0, All-below-shift p q qs h k.1)
  | inr stay ↦ rw stay (h, k)
]

shift-IsBackwards : (p : Pair) (qs : List Pair) → IsBackwards qs → IsBackwards (shift p qs)
unfolding shift
shift-IsBackwards p [] h = (tt, tt)
shift-IsBackwards p (q ∷ qs) h = elim (Bool-cases (str_gt q.0 p.0)) [
  | inl up ↦
      rw up (All-below-shift p q qs (str_gt_asymm q.0 p.0 up) h.0, shift-IsBackwards p qs h.1)
  | inr stay ↦ rw stay ((stay, All-below p q qs stay h.0), h)
]

sort_loop-IsBackwards : (done ps : List Pair) → IsBackwards done → IsBackwards (sort_loop done ps)
unfolding sort_loop
sort_loop-IsBackwards done [] h = h
sort_loop-IsBackwards done (p ∷ ps) h =
    sort_loop-IsBackwards (shift p done) ps (shift-IsBackwards p done h)

All-concat : (P : Pair → Type 0) (xs : List Pair) (x : Pair) → All P xs → P x → All P (xs ++ x ∷ [])
All-concat P [] x h k = (k, tt)
All-concat P (y ∷ xs) x h k = (h.0, All-concat P xs x h.1 k)

IsSorted-concat :
    (xs : List Pair) (x : Pair)
    → IsSorted xs
    → All (λ q. str_gt q.0 x.0 ≡ false) xs
    → IsSorted (xs ++ x ∷ [])
IsSorted-concat [] x h k = (tt, tt)
IsSorted-concat (y ∷ xs) x h k =
    (All-concat (λ q. str_gt y.0 q.0 ≡ false) xs x h.0 k.0, IsSorted-concat xs x h.1 k.1)

All-reverse : (P : Pair → Type 0) (xs : List Pair) → All P xs → All P (reverse xs)
All-reverse P [] h = tt
All-reverse P (x ∷ xs) h = rw reverse-cons (All-concat P (reverse xs) x (All-reverse P xs h.1) h.0)

reverse-IsSorted : (ps : List Pair) → IsBackwards ps → IsSorted (reverse ps)
reverse-IsSorted [] h = tt
reverse-IsSorted (p ∷ ps) h = rw reverse-cons (
    IsSorted-concat (reverse ps) p (reverse-IsSorted ps h.1)
      (All-reverse (λ q. str_gt q.0 p.0 ≡ false) ps h.0))

shift-perm : (p : Pair) (qs : List Pair) → Perm (shift p qs) (p ∷ qs)
unfolding shift
shift-perm p [] = Perm.refl (p ∷ [])
shift-perm p (q ∷ qs) = elim (Bool-cases (str_gt q.0 p.0)) [
  | inl up ↦ rw up (Perm.trans (Perm.cons q (shift-perm p qs)) (Perm.swap p q qs))
  | inr stay ↦ rw stay (Perm.refl (p ∷ q ∷ qs))
]

sort_loop-perm : (done ps : List Pair) → Perm (sort_loop done ps) (ps ++ done)
unfolding sort_loop
sort_loop-perm done [] = Perm.refl done
sort_loop-perm done (p ∷ ps) =
    Perm.trans (sort_loop-perm (shift p done) ps)
      (Perm.trans (Perm.append (Perm.refl ps) (shift-perm p done)) (perm_middle ps done))

-- The pairs of one key, in their order.
abbrev pub with_key : Bytes → List Pair → List Pair
with_key k [] = []
with_key k (p ∷ ps) = if str_eq p.0 k then p ∷ with_key k ps else with_key k ps

with_key-append :
    (k : Bytes) (xs ys : List Pair) → with_key k (xs ++ ys) ≡ with_key k xs ++ with_key k ys
with_key-append k [] ys = refl
with_key-append k (x ∷ xs) ys = ground (arith, with_key-append k xs ys)

with_key-reverse : (k : Bytes) (xs : List Pair) → with_key k (reverse xs) ≡ reverse (with_key k xs)
with_key-reverse k [] = refl
with_key-reverse k (x ∷ xs) =
    rw (reverse-cons, with_key-append, with_key-reverse k xs)
      (elim (Bool-cases (str_eq x.0 k)) [
        | inl here ↦ rw (here, reverse-cons)
        | inr other ↦ rw (other, append-nil)
      ])

with_key-shift :
    (k : Bytes) (p : Pair) (qs : List Pair) → with_key k (shift p qs) ≡ with_key k (p ∷ qs)
unfolding shift
with_key-shift k p [] = refl
with_key-shift k p (q ∷ qs) =
    ground (arith, with_key-shift k p qs, str_eq_iff p.0 k, str_eq_iff q.0 k, str_le_refl k)

with_key-sort_loop :
    (k : Bytes) (done ps : List Pair)
    → with_key k (sort_loop done ps) ≡ reverse (with_key k ps) ++ with_key k done
unfolding sort_loop
with_key-sort_loop k done [] = refl
with_key-sort_loop k done (p ∷ ps) =
    with_key-sort_loop k (shift p done) ps
    ∙ rw with_key-shift (elim (Bool-cases (str_eq p.0 k)) [
      | inl here ↦ rw (here, reverse-cons, append_assoc)
      | inr other ↦ rw other
    ])

-- The result is sorted by key.
pub insertion_sort-IsSorted : (ps : List Pair) → IsSorted (insertion_sort ps)
unfolding insertion_sort
insertion_sort-IsSorted ps = reverse-IsSorted (sort_loop [] ps) (sort_loop-IsBackwards [] ps tt)

-- The result has the same pairs.
pub insertion_sort-perm : (ps : List Pair) → Perm (insertion_sort ps) ps
unfolding insertion_sort
insertion_sort-perm ps =
    Perm.trans (reverse_perm (sort_loop [] ps)) (rw append-nil at (sort_loop-perm [] ps))

-- The sort is stable.
pub with_key-insertion_sort :
    (k : Bytes) (ps : List Pair) → with_key k (insertion_sort ps) ≡ with_key k ps
unfolding insertion_sort
with_key-insertion_sort k ps =
    rw (with_key-reverse, with_key-sort_loop, append-nil, reverse-reverse)

-- The result is sorted by key, has the same pairs, and keeps the order of those with equal keys.
pub insertion_sort_lem :
    (ps : List Pair)
    → IsSorted (insertion_sort ps)
      × Perm (insertion_sort ps) ps
      × ((k : Bytes) → with_key k (insertion_sort ps) ≡ with_key k ps)
insertion_sort_lem ps =
    (insertion_sort-IsSorted ps, insertion_sort-perm ps, λ k. with_key-insertion_sort k ps)

-- What holds of every pair holds of every pair of the result.
module _ (P : Pair → Type 0) where
  All-shift : (p : Pair) (qs : List Pair) → P p → All P qs → All P (shift p qs)
  unfolding shift
  All-shift p [] h k = (h, tt)
  All-shift p (q ∷ qs) h k = elim (Bool-cases (str_gt q.0 p.0)) [
    | inl up ↦ rw up (k.0, All-shift p qs h k.1)
    | inr stay ↦ rw stay (h, k)
  ]

  All-sort_loop : (done ps : List Pair) → All P done → All P ps → All P (sort_loop done ps)
  unfolding sort_loop
  All-sort_loop done [] h k = h
  All-sort_loop done (p ∷ ps) h k = All-sort_loop (shift p done) ps (All-shift p done k.0 h) k.1

  pub All-insertion_sort : (ps : List Pair) → All P ps → All P (insertion_sort ps)
  unfolding insertion_sort
  All-insertion_sort ps h = All-reverse P (sort_loop [] ps) (All-sort_loop [] ps tt h)
