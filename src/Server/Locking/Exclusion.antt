-- ===== src/Server/Locking/Exclusion.antt =====
-- A lock that one thread owns is free for every other thread.
use so.Common.{
  ℕ, ◌<◌, ◌==◌, true, false, List, arith, ◌≡◌, ◌≢◌, refl, ap, sym, ◌∙◌, Bool-cases, inl, inr,
  ==_iff,
}
use so.Server.Operations.{Lock, Event, global, backups, bucket}
use so.Server.Operations.Locks.{same_lock}
use so.Server.Locking.{
  Hold, free, shared, owned, Thread, hold, System, put, Step, take_shared, take_owned, release,
  write_out, Reach, start, later,
}

abbrev pub IsExclusive : ℕ → System → Type 0
IsExclusive n s =
    (i j : ℕ) (l : Lock) → i < n → j < n → i ≢ j → (s i).held l ≡ owned → (s j).held l ≡ free

-- The holds of a thread against those of the others.
Agrees : ℕ → System → ℕ → (Lock → Hold) → Type 0
Agrees n s i held =
    (l : Lock) (j : ℕ)
    → j < n
    → i ≢ j
    → (held l ≡ owned → (s j).held l ≡ free) × ((s j).held l ≡ owned → held l ≡ free)

equal-false : (i j : ℕ) → i ≢ j → (i == j) ≡ false
equal-false i j ne = ground arith

equal-ne : (i j : ℕ) → (i == j) ≡ false → i ≢ j
equal-ne i j e = λ h. ground arith

put-IsExclusive :
    {n : ℕ} (s : System) (i : ℕ) (t : Thread)
    → IsExclusive n s
    → Agrees n s i t.held
    → IsExclusive n (put s i t)
unfolding Agrees
put-IsExclusive s i t x agrees a b l la lb ne o = elim (Bool-cases (i == a)) [
  | inl at_a ↦
      let i_a : i ≡ a = (==_iff i a).0 at_a in
      let i_b : i ≢ b = λ e. ne (sym i_a ∙ e) in
      rw (equal-false i b i_b) ((agrees l b lb i_b).0 (rw at_a at o))
  | inr not_a ↦ elim (Bool-cases (i == b)) [
    | inl at_b ↦ rw at_b ((agrees l a la (equal-ne i a not_a)).1 (rw not_a at o))
    | inr not_b ↦ rw not_b (x a b l la lb ne (rw not_a at o))
  ]
]

same_lock-eq : (l m : Lock) → same_lock l m ≡ true → l ≡ m
same_lock-eq global global e = refl
same_lock-eq backups backups e = refl
same_lock-eq global (bucket j) e = cc
same_lock-eq global backups e = cc
same_lock-eq backups global e = cc
same_lock-eq backups (bucket j) e = cc
same_lock-eq (bucket i) global e = cc
same_lock-eq (bucket i) backups e = cc
same_lock-eq (bucket i) (bucket j) e = ap bucket ((==_iff i j).0 e)

free-ne_owned : {h : Hold} → h ≡ free → h ≢ owned
free-ne_owned e = λ o. cc

-- A hold that changes for one lock, and stands for the others.
hold-Agrees :
    {n : ℕ} (s : System) (i : ℕ) (l : Lock) (h : Hold)
    → i < n
    → IsExclusive n s
    → ((j : ℕ)
        → j < n
        → i ≢ j
        → (h ≡ owned → (s j).held l ≡ free) × ((s j).held l ≡ owned → h ≡ free))
    → Agrees n s i (hold (s i).held l h)
unfolding Agrees
hold-Agrees s i l h lt x here m j lj ne = elim (Bool-cases (same_lock l m)) [
  | inl same ↦ rw (same, ← same_lock-eq l m same) (here j lj ne)
  | inr other ↦ rw other (x i j m lt lj ne, x j i m lj lt (λ e. ne (sym e)))
]

Step-IsExclusive : {n : ℕ} {s t : System} → Step n s t → IsExclusive n s → IsExclusive n t
Step-IsExclusive {n} {s} (take_shared i l es lt e none_owns) x =
    put-IsExclusive s i _ x
      (hold-Agrees s i l shared lt x (λ j lj ne. (λ h. cc, λ o. absurd (none_owns j lj o))))
Step-IsExclusive {n} {s} (take_owned i l es lt e all_free) x = put-IsExclusive s i _ x (
    hold-Agrees s i l owned lt x
      (λ j lj ne. (λ h. all_free j lj, λ o. absurd (free-ne_owned (all_free j lj) o))))
Step-IsExclusive {n} {s} (release i l es lt e) x =
    put-IsExclusive s i _ x (hold-Agrees s i l free lt x (λ j lj ne. (λ h. cc, λ o. refl)))
Step-IsExclusive {n} {s} (write_out i text es lt e) x =
    put-IsExclusive s i _ x
      (unfold Agrees in (λ m j lj ne. (x i j m lt lj ne, x j i m lj lt (λ e. ne (sym e)))))

-- However the threads are interleaved, a lock that one of them holds for writing is held by no
-- other, for reading or writing.
pub Reach-IsExclusive :
    {n : ℕ} {programs : ℕ → List Event} {s : System} → Reach n programs s → IsExclusive n s
Reach-IsExclusive start = λ i j l li lj ne o. refl
Reach-IsExclusive (later r st) = Step-IsExclusive st (Reach-IsExclusive r)
