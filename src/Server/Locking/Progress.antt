-- ===== src/Server/Locking/Progress.antt =====
-- Programs that take their locks in one order do not wait for each other for ever.
use so.Common.{ℕ, zero, suc, ◌+◌, ◌<◌, List, [], ◌∷◌, arith, ◌≡◌, ◌≢◌, refl, ◌⊎◌, inl, inr}
use so.Server.Kvs.{table_size}
use so.Server.Operations.{Lock, Event, rdlock, wrlock, unlock, output}
use so.Server.Locking.{
  Hold, free, shared, owned, System, none_held, Step, take_shared, take_owned, release, write_out,
  Reach,
}
use so.Server.Locking.Order.{rank, IsOrderly, AllOrderly, Reach-AllOrderly}

abbrev pub CanStep : ℕ → System → Type 0
CanStep n s = (t : System) × Step n s t

free_or_held : (h : Hold) → (h ≡ free) ⊎ (h ≢ free)
free_or_held free = inl refl
free_or_held shared = inr (λ e. cc)
free_or_held owned = inr (λ e. cc)

free-ne_owned : {h : Hold} → h ≡ free → h ≢ owned
free-ne_owned e = λ o. cc

-- Either the lock is free for the first `n` threads, or one of them holds it.
holder :
    (n : ℕ) (s : System) (l : Lock)
    → ((j : ℕ) → j < n → (s j).held l ≡ free) ⊎ ((j : ℕ) × (j < n) × ((s j).held l ≢ free))
holder zero s l = inl (λ j lt. absurd (omega arith))
holder (suc n) s l = elim (holder n s l) [
  | inr (j, lt, held) ↦ inr (j, omega arith, held)
  | inl none_below ↦ elim (free_or_held ((s n).held l)) [
    | inr held ↦ inr (n, omega arith, held)
    | inl free_now ↦ inl (λ j lt. ground (arith, none_below j))
  ]
]

-- The rank of the next lock; a thread that takes none has the greatest.
abbrev next_rank : List Event → ℕ
next_rank (rdlock l ∷ es) = rank l
next_rank (wrlock l ∷ es) = rank l
next_rank _ = suc table_size

-- A thread that holds a lock has events left, and what it takes next stands above that lock.
next-above :
    (held : Lock → Hold) (l : Lock) (k : ℕ)
    → held l ≢ free
    → (todo : List Event) → IsOrderly held todo
    → table_size < rank l + suc k
    → (todo ≢ []) × (table_size < next_rank todo + k)
next-above held l k ne [] h far = absurd (ne (h l))
next-above held l k ne (rdlock m ∷ es) h far = (λ e. cc, omega (arith, h.0.0 l ne))
next-above held l k ne (wrlock m ∷ es) h far = (λ e. cc, omega (arith, h.0.0 l ne))
next-above held l k ne (unlock m ∷ es) h far = (λ e. cc, omega arith)
next-above held l k ne (output text ∷ es) h far = (λ e. cc, omega arith)

module _ {n : ℕ} {s : System} (orderly : AllOrderly n s) where
  climb :
      (k j : ℕ)
      → j < n
      → (todo : List Event) → (s j).todo ≡ todo
      → todo ≢ []
      → table_size < next_rank todo + k
      → CanStep n s
  climb k j lt [] e some_left far = absurd (some_left refl)
  climb k j lt (unlock l ∷ es) e some_left far = (_, release j l es lt e)
  climb k j lt (output text ∷ es) e some_left far = (_, write_out j text es lt e)
  climb zero j lt (rdlock l ∷ es) e some_left far =
      absurd (omega (arith, (rw e at (orderly j lt)).0.1))
  climb zero j lt (wrlock l ∷ es) e some_left far =
      absurd (omega (arith, (rw e at (orderly j lt)).0.1))
  climb (suc k) j lt (rdlock l ∷ es) e some_left far = elim (holder n s l) [
    | inl all_free ↦ (_, take_shared j l es lt e (λ i below. free-ne_owned (all_free i below)))
    | inr (i, below, held) ↦
        let (more, above) = next-above (s i).held l k held (s i).todo (orderly i below) far in
        climb k i below (s i).todo refl more above
  ]
  climb (suc k) j lt (wrlock l ∷ es) e some_left far = elim (holder n s l) [
    | inl all_free ↦ (_, take_owned j l es lt e all_free)
    | inr (i, below, held) ↦
        let (more, above) = next-above (s i).held l k held (s i).todo (orderly i below) far in
        climb k i below (s i).todo refl more above
  ]

nil_or_more : (es : List Event) → (es ≡ []) ⊎ (es ≢ [])
nil_or_more [] = inl refl
nil_or_more (e ∷ es) = inr (λ h. cc)

-- Either all threads are done, or one of them has events left.
unfinished :
    (n : ℕ) (s : System)
    → ((j : ℕ) → j < n → (s j).todo ≡ []) ⊎ ((j : ℕ) × (j < n) × ((s j).todo ≢ []))
unfinished zero s = inl (λ j lt. absurd (omega arith))
unfinished (suc n) s = elim (unfinished n s) [
  | inr (j, lt, more) ↦ inr (j, omega arith, more)
  | inl done_below ↦ elim (nil_or_more (s n).todo) [
    | inr more ↦ inr (n, omega arith, more)
    | inl done ↦ inl (λ j lt. ground (arith, done_below j))
  ]
]

-- Where every program takes its locks upwards and gives them back, the threads never wait for each
-- other for ever: in every reachable state all are done, or one can go on.
pub Reach-CanStep :
    {n : ℕ} {programs : ℕ → List Event} {s : System}
    → ((j : ℕ) → j < n → IsOrderly none_held (programs j))
    → Reach n programs s
    → ((j : ℕ) → j < n → (s j).todo ≡ []) ⊎ CanStep n s
Reach-CanStep {n} {programs} {s} orderly r = elim (unfinished n s) [
  | inl done ↦ inl done
  | inr (j, lt, more) ↦
      inr (
        climb (Reach-AllOrderly orderly r) (suc table_size) j lt (s j).todo refl more (omega arith))
]
