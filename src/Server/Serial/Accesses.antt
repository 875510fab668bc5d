-- ===== src/Server/Serial/Accesses.antt =====
-- What an operation does depends on the buckets that it holds, and changes those that it owns.
use mathlib.Core.Path.{subst}
use so.Common.{ℕ, ◌==◌, List, [], ◌∷◌, ◌≡◌, ◌≢◌, refl, sym, ◌∙◌, ap, Bool-cases, inl, inr, ==_iff}
use so.Server.Locking.{Hold, free, owned}
use so.Server.Serial.{Access, act, look, change, update, access, run}

-- The two have the same in every bucket that is held.
abbrev pub SameHeld : {C : Type 0} → (ℕ → Hold) → (ℕ → C) → (ℕ → C) → Type 0
SameHeld held cells other = (b : ℕ) → held b ≢ free → cells b ≡ other b

owned-ne_free : {h : Hold} → h ≡ owned → h ≢ free
owned-ne_free o = λ e. cc

update-SameHeld :
    {C : Type 0} (held : ℕ → Hold) (cells other : ℕ → C) (b : ℕ) (c d : C)
    → c ≡ d
    → SameHeld held cells other
    → SameHeld held (update cells b c) (update other b d)
update-SameHeld held cells other b c d e h m ne = elim (Bool-cases (b == m)) [
  | inl at ↦ rw at e
  | inr not_at ↦ rw not_at (h m ne)
]

module _ {C L : Type 0} where
  -- Only buckets that are held are seen, and only buckets that are owned are changed.
  abbrev pub IsGuarded : (ℕ → Hold) → List (Access C L) → Type 0
  IsGuarded held [] = Unit
  IsGuarded held (act f ∷ left) = IsGuarded held left
  IsGuarded held (look b f ∷ left) = (held b ≢ free) × IsGuarded held left
  IsGuarded held (change b f ∷ left) = (held b ≡ owned) × IsGuarded held left

  -- The two keep the same, and have the same in every bucket that is held.
  abbrev pub SameEnd : (ℕ → Hold) → L × (ℕ → C) → L × (ℕ → C) → Type 0
  SameEnd held x y = (x.0 ≡ y.0) × SameHeld held x.1 y.1

  -- On cells that agree where the operation holds its locks, it does the same.
  pub run-SameHeld :
      (held : ℕ → Hold) (left : List (Access C L)) (l : L) (cells other : ℕ → C)
      → IsGuarded held left
      → SameHeld held cells other
      → SameEnd held (run left (l, cells)) (run left (l, other))
  unfolding run
  run-SameHeld held [] l cells other g h = (refl, h)
  run-SameHeld held (act f ∷ left) l cells other g h = run-SameHeld held left (f l) cells other g h
  run-SameHeld held (look b f ∷ left) l cells other g h =
      subst (λ c. SameEnd held (run left (f l c, cells)) (run left (f l (other b), other)))
        (sym (h b g.0)) (run-SameHeld held left (f l (other b)) cells other g.1 h)
  run-SameHeld held (change b f ∷ left) l cells other g h =
      let r = f l (other b) in
      subst
        (λ c.
          SameEnd held (run left ((f l c).0, update cells b (f l c).1))
            (run left (r.0, update other b r.1)))
        (sym (h b (owned-ne_free g.0)))
        (run-SameHeld held left r.0 (update cells b r.1) (update other b r.1) g.1
          (update-SameHeld held cells other b r.1 r.1 refl h))

  -- A bucket that is not owned stays as it is.
  pub run-not_owned :
      (held : ℕ → Hold) (left : List (Access C L)) (l : L) (cells : ℕ → C) (m : ℕ)
      → IsGuarded held left
      → held m ≢ owned
      → (run left (l, cells)).1 m ≡ cells m
  unfolding run
  run-not_owned held [] l cells m g ne = refl
  run-not_owned held (act f ∷ left) l cells m g ne = run-not_owned held left (f l) cells m g ne
  run-not_owned held (look b f ∷ left) l cells m g ne =
      run-not_owned held left (f l (cells b)) cells m g.1 ne
  run-not_owned held (change b f ∷ left) l cells m g ne =
      run-not_owned held left _ (update cells b (f l (cells b)).1) m g.1 ne
      ∙ elim (Bool-cases (b == m)) [
        | inl at ↦ absurd (ne (sym (ap held ((==_iff b m).0 at)) ∙ g.0))
        | inr not_at ↦ rw not_at
      ]

  -- So it does after one access.
  pub access-not_owned :
      (held : ℕ → Hold) (a : Access C L) (left : List (Access C L)) (l : L) (cells : ℕ → C) (m : ℕ)
      → IsGuarded held (a ∷ left)
      → held m ≢ owned
      → (access a (l, cells)).1 m ≡ cells m
  access-not_owned held (act f) left l cells m g ne = refl
  access-not_owned held (look b f) left l cells m g ne = refl
  access-not_owned held (change b f) left l cells m g ne = elim (Bool-cases (b == m)) [
    | inl at ↦ absurd (ne (sym (ap held ((==_iff b m).0 at)) ∙ g.0))
    | inr not_at ↦ rw not_at
  ]

  pub IsGuarded-rest :
      (held : ℕ → Hold) (a : Access C L) (left : List (Access C L))
      → IsGuarded held (a ∷ left)
      → IsGuarded held left
  IsGuarded-rest held (act f) left g = g
  IsGuarded-rest held (look b f) left g = g.1
  IsGuarded-rest held (change b f) left g = g.1
