-- ===== src/Server/Serial/Guards.antt =====
-- The accesses of a thread are covered by the locks that it holds, or will hold when it comes to them.
use mathlib.Core.Path.{fun_ext, subst}
use so.Common.{ℕ, ◌<◌, List, [], ◌∷◌, All, ◌≡◌, refl, sym}
use so.Server.Locking.{Hold}
use so.Server.Serial.{
  Operation, Phase, taking, active, Thread, System, Step, start_operation, take_shared, take_owned,
  begin, perform, give, Reach, start, later, update, hold, none_held, started,
}
use so.Server.Serial.Accesses.{IsGuarded, IsGuarded-rest}
use so.Server.Serial.Exclusion.{update_all, IsExclusive, Step-IsExclusive}

-- The locks after some have been taken.
abbrev pub after : List (ℕ × Hold) → (ℕ → Hold) → ℕ → Hold
after [] held = held
after ((b, h) ∷ locks) held = after locks (hold held b h)

module _ {C L : Type 0} where
  -- An operation that takes the locks for its accesses.
  abbrev pub IsSafe : Operation C L → Type 0
  IsSafe o = IsGuarded (after o.locks none_held) o.accesses

  abbrev pub IsCovered : (ℕ → Hold) → Phase C L → Type 0
  IsCovered held (taking locks left) = IsGuarded (after locks held) left
  IsCovered held (active left) = IsGuarded held left

  abbrev pub ThreadIsSafe : Thread C L → Type 0
  ThreadIsSafe t = IsCovered t.held t.phase × All IsSafe t.todo

  abbrev pub AllSafe : ℕ → (ℕ → Thread C L) → Type 0
  AllSafe n threads = (j : ℕ) → j < n → ThreadIsSafe (threads j)

  update-AllSafe :
      {n : ℕ} (threads : ℕ → Thread C L) (i : ℕ) (t : Thread C L)
      → AllSafe n threads
      → ThreadIsSafe t
      → AllSafe n (update threads i t)
  update-AllSafe {n} threads i t all new =
      update_all (λ j x. j < n → ThreadIsSafe x) threads i t (λ lt. new) (λ j ne lt. all j lt)

  Step-AllSafe : {n : ℕ} {s t : System C L} → Step n s t → AllSafe n s.threads → AllSafe n t.threads
  Step-AllSafe {n} {s} (start_operation i o os lt e f h) all =
      let none : (s.threads i).held ≡ none_held = fun_ext h in
      let safe = subst (All IsSafe) f (all i lt).1 in
      update-AllSafe s.threads i _ all
        (subst (λ held. IsGuarded (after o.locks held) o.accesses) (sym none) safe.0, safe.1)
  Step-AllSafe {n} {s} (take_shared i b locks left lt e h) all =
      update-AllSafe s.threads i _ all (rw e at (all i lt).0, (all i lt).1)
  Step-AllSafe {n} {s} (take_owned i b locks left lt e h) all =
      update-AllSafe s.threads i _ all (rw e at (all i lt).0, (all i lt).1)
  Step-AllSafe {n} {s} (begin i left lt e) all =
      update-AllSafe s.threads i _ all (rw e at (all i lt).0, (all i lt).1)
  Step-AllSafe {n} {s} (perform i a left lt e) all =
      update-AllSafe s.threads i _ all
        (IsGuarded-rest (s.threads i).held a left (rw e at (all i lt).0), (all i lt).1)
  Step-AllSafe {n} {s} (give i b lt e h) all =
      update-AllSafe s.threads i _ all (rw e tt, (all i lt).1)

  -- The threads do not share what one of them owns, and stay within their locks.
  pub record IsOrdered (n : ℕ) (s : System C L) : Type 0 where
    pub exclusive : IsExclusive n s.threads
    pub safe : AllSafe n s.threads

  pub Reach-IsOrdered :
      {n : ℕ} {cells : ℕ → C} {locals : ℕ → L} {programs : ℕ → List (Operation C L)}
      {s : System C L}
      → ((j : ℕ) → j < n → All IsSafe (programs j))
      → Reach n (started cells locals programs) s
      → IsOrdered n s
  Reach-IsOrdered all start = record {
    exclusive = λ i j li lj ne b o. refl;
    safe = λ j lt. (tt, all j lt);
  }
  Reach-IsOrdered all (later r st) =
      let o = Reach-IsOrdered all r in
      record { exclusive = Step-IsExclusive st o.exclusive; safe = Step-AllSafe st o.safe }
