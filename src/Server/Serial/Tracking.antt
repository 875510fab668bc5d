-- ===== src/Server/Serial/Tracking.antt =====
-- How a state of the threads, with operations under way, stands to one where each operation has
-- been called at once.
use mathlib.Core.Path.{subst}
use so.Common.{
  ℕ, ◌<◌, ◌==◌, List, [], ◌∷◌, ◌≡◌, ◌≢◌, refl, ◌∙◌, Bool-cases, inl, inr, ==_iff, arith,
}
use so.Server.Locking.{Hold, free, owned}
use so.Server.Serial.{
  Access, Operation, Phase, taking, active, Thread, System, update, hold, run, all_accesses, Whole,
}
use so.Server.Serial.Accesses.{IsGuarded, SameHeld, SameEnd, run-SameHeld}
use so.Server.Serial.Exclusion.{update_all, equal-false}
use so.Server.Serial.Guards.{IsCovered}

pub update_self : {A : Type 0} (f : ℕ → A) (i : ℕ) (a : A) → update f i a i ≡ a
update_self f i a = ground arith

pub update_other : {A : Type 0} (f : ℕ → A) (i j : ℕ) (a : A) → i ≢ j → update f i a j ≡ f j
update_other f i j a ne = rw (equal-false i j ne)

-- One more bucket that is held.
pub hold-SameHeld :
    {C : Type 0} (held : ℕ → Hold) (b : ℕ) (h : Hold) (cells other : ℕ → C)
    → cells b ≡ other b
    → SameHeld held cells other
    → SameHeld (hold held b h) cells other
hold-SameHeld held b h cells other now same m ne = elim (Bool-cases (b == m)) [
  | inl at ↦ subst (λ k. cells k ≡ other k) ((==_iff b m).0 at) now
  | inr not_at ↦ same m (rw not_at at ne)
]

-- One fewer.
pub free-SameHeld :
    {C : Type 0} (held : ℕ → Hold) (b : ℕ) (cells other : ℕ → C)
    → SameHeld held cells other
    → SameHeld (hold held b free) cells other
free-SameHeld held b cells other same m ne = elim (Bool-cases (b == m)) [
  | inl at ↦ absurd (rw at at ne refl)
  | inr not_at ↦ same m (rw not_at at ne)
]

module _ {C L : Type 0} where
  abbrev pub left_of : Phase C L → List (Access C L)
  left_of (taking locks left) = []
  left_of (active left) = left

  abbrev pub pending : Phase C L → List (Operation C L) → List (List (Access C L))
  pending (taking locks left) todo = left ∷ all_accesses todo
  pending (active left) todo = all_accesses todo

  -- Whoever goes on alone with the operation that it is in ends like its thread in `w`, as far as
  -- it holds the buckets.
  abbrev pub Tracks : (ℕ → C) → Whole C L → ℕ → Thread C L → Type 0
  Tracks cells w j t =
      (w.left j ≡ pending t.phase t.todo)
      × SameEnd t.held (run (left_of t.phase) (t.local, cells)) (w.locals j, w.cells)

  abbrev pub IsUnowned : ℕ → (ℕ → Thread C L) → ℕ → Type 0
  IsUnowned n threads b = (j : ℕ) → j < n → (threads j).held b ≢ owned

  pub record Follows (n : ℕ) (s : System C L) (w : Whole C L) : Type 0 where
    pub tracks : (j : ℕ) → j < n → Tracks s.cells w j (s.threads j)
    pub unowned : (b : ℕ) → IsUnowned n s.threads b → s.cells b ≡ w.cells b

  -- The premise on the threads after a step gives the one before it.
  pub IsUnowned-before :
      {n : ℕ} (threads : ℕ → Thread C L) (i : ℕ) (t : Thread C L) (b : ℕ)
      → (t.held b ≢ owned → (threads i).held b ≢ owned)
      → IsUnowned n (update threads i t) b
      → IsUnowned n threads b
  IsUnowned-before threads i t b back new j lt = elim (Bool-cases (i == j)) [
    | inl at ↦
        subst (λ k. (threads k).held b ≢ owned) ((==_iff i j).0 at) (back (rw at at (new j lt)))
    | inr not_at ↦ rw not_at at (new j lt)
  ]

  pub left-IsGuarded :
      (held : ℕ → Hold) (phase : Phase C L) → IsCovered held phase → IsGuarded held (left_of phase)
  left-IsGuarded held (taking locks left) cover = tt
  left-IsGuarded held (active left) cover = cover

  -- A step of one thread that changes no cell, and nothing for the others.
  pub quiet :
      {n : ℕ} {s : System C L} {w : Whole C L} (i : ℕ) (t : Thread C L)
      → Follows n s w
      → (i < n → Tracks s.cells w i t)
      → ((b : ℕ) → IsUnowned n (update s.threads i t) b → s.cells b ≡ w.cells b)
      → Follows n (record s { threads = update s.threads i t }) w
  quiet {n} {s} {w} i t f new unowned = record {
    tracks =
        update_all (λ j x. j < n → Tracks s.cells w j x) s.threads i t new (λ j ne. f.tracks j);
    unowned = unowned;
  }

  -- What another thread does where this one holds its locks leaves this one its way.
  pub Tracks-moved :
      {cells moved : ℕ → C} (w : Whole C L) (j : ℕ) (t : Thread C L)
      → IsCovered t.held t.phase
      → SameHeld t.held moved cells
      → Tracks cells w j t
      → Tracks moved w j t
  Tracks-moved {cells} {moved} w j t cover same told =
      let go =
        run-SameHeld t.held (left_of t.phase) t.local moved cells
          (left-IsGuarded t.held t.phase cover) same in
      (told.0, (go.0 ∙ told.1.0, λ b ne. go.1 b ne ∙ told.1.1 b ne))
