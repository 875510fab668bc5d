-- ===== src/Server/Serial/Exclusion.antt =====
-- A bucket that one thread owns is free for every other thread.
use mathlib.Core.Path.{subst}
use so.Common.{ℕ, ◌<◌, ◌==◌, false, ◌≡◌, ◌≢◌, refl, sym, ◌∙◌, Bool-cases, inl, inr, ==_iff, arith}
use so.Server.Locking.{Hold, free, shared, owned}
use so.Server.Serial.{
  Thread, System, Step, start_operation, take_shared, take_owned, begin, perform, give, update,
  hold,
}

pub equal-false : (i j : ℕ) → i ≢ j → (i == j) ≡ false
equal-false i j ne = ground arith

pub equal-ne : (i j : ℕ) → (i == j) ≡ false → i ≢ j
equal-ne i j e = λ h. ground arith

-- What holds of the new value, and of the others, holds of all.
pub update_all :
    {A : Type 0} (P : ℕ → A → Type 0) (f : ℕ → A) (i : ℕ) (a : A)
    → P i a
    → ((j : ℕ) → i ≢ j → P j (f j))
    → (j : ℕ) → P j (update f i a j)
update_all P f i a new old j = elim (Bool-cases (i == j)) [
  | inl at ↦ rw at (subst (λ k. P k a) ((==_iff i j).0 at) new)
  | inr not_at ↦ rw not_at (old j (equal-ne i j not_at))
]

-- Neither owns a bucket that the other has.
abbrev Agree : (ℕ → Hold) → (ℕ → Hold) → Type 0
Agree held other = (b : ℕ) → (held b ≡ owned → other b ≡ free) × (other b ≡ owned → held b ≡ free)

hold-Agree :
    (held other : ℕ → Hold) (b : ℕ) (h : Hold)
    → Agree held other
    → (h ≡ owned → other b ≡ free) × (other b ≡ owned → h ≡ free)
    → Agree (hold held b h) other
hold-Agree held other b h agree here m = elim (Bool-cases (b == m)) [
  | inl at ↦ rw (at, ← (==_iff b m).0 at) here
  | inr not_at ↦ rw not_at (agree m)
]

pub free-ne_owned : {h : Hold} → h ≡ free → h ≢ owned
free-ne_owned e = λ o. cc

module _ {C L : Type 0} where
  abbrev pub IsExclusive : ℕ → (ℕ → Thread C L) → Type 0
  IsExclusive n threads =
      (i j : ℕ)
      → i < n
      → j < n
      → i ≢ j
      → (b : ℕ) → (threads i).held b ≡ owned
      → (threads j).held b ≡ free

  update-IsExclusive :
      {n : ℕ} (threads : ℕ → Thread C L) (i : ℕ) (t : Thread C L)
      → IsExclusive n threads
      → ((j : ℕ) → j < n → i ≢ j → Agree t.held (threads j).held)
      → IsExclusive n (update threads i t)
  update-IsExclusive threads i t x agrees a b la lb ne m o = elim (Bool-cases (i == a)) [
    | inl at_a ↦
        let i_a : i ≡ a = (==_iff i a).0 at_a in
        let i_b : i ≢ b = λ e. ne (sym i_a ∙ e) in
        rw (equal-false i b i_b) ((agrees b lb i_b m).0 (rw at_a at o))
    | inr not_a ↦ elim (Bool-cases (i == b)) [
      | inl at_b ↦ rw at_b ((agrees a la (equal-ne i a not_a) m).1 (rw not_a at o))
      | inr not_b ↦ rw not_b (x a b la lb ne m (rw not_a at o))
    ]
  ]

  same-Agree :
      {n : ℕ} (threads : ℕ → Thread C L) (i j : ℕ)
      → IsExclusive n threads
      → i < n
      → j < n
      → i ≢ j
      → Agree (threads i).held (threads j).held
  same-Agree threads i j x li lj ne m = (x i j li lj ne m, x j i lj li (λ e. ne (sym e)) m)

  pub Step-IsExclusive :
      {n : ℕ} {s t : System C L} → Step n s t → IsExclusive n s.threads → IsExclusive n t.threads
  Step-IsExclusive {n} {s} (start_operation i o os lt e f h) x =
      update-IsExclusive s.threads i _ x (λ j lj ne. same-Agree s.threads i j x lt lj ne)
  Step-IsExclusive {n} {s} (take_shared i b locks left lt e none_owns) x =
      update-IsExclusive s.threads i _ x (λ j lj ne.
        hold-Agree _ _ b shared (same-Agree s.threads i j x lt lj ne)
          (λ h. cc, λ o. absurd (none_owns j lj o)))
  Step-IsExclusive {n} {s} (take_owned i b locks left lt e all_free) x =
      update-IsExclusive s.threads i _ x (λ j lj ne.
        hold-Agree _ _ b owned (same-Agree s.threads i j x lt lj ne)
          (λ h. all_free j lj, λ o. absurd (free-ne_owned (all_free j lj) o)))
  Step-IsExclusive {n} {s} (begin i left lt e) x =
      update-IsExclusive s.threads i _ x (λ j lj ne. same-Agree s.threads i j x lt lj ne)
  Step-IsExclusive {n} {s} (perform i a left lt e) x =
      update-IsExclusive s.threads i _ x (λ j lj ne. same-Agree s.threads i j x lt lj ne)
  Step-IsExclusive {n} {s} (give i b lt e h) x =
      update-IsExclusive s.threads i _ x (λ j lj ne.
        hold-Agree _ _ b free (same-Agree s.threads i j x lt lj ne) (λ h. cc, λ o. refl))
