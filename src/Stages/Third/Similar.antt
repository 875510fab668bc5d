-- ===== src/Stages/Third/Similar.antt =====
-- What the runs of a job file in SO-Parte1/grupo5-ex3 and in the server have in common.
use so.Common.{
  ℕ, true, false, List, [], ◌∷◌, ◌++◌, map, Bytes, Run, ok, fault, Fault, ◌>>=◌, ◌≡◌, refl, sym, ap,
  ◌∙◌, Bool, Bool-cases, inl, inr, append-nil, if◌then◌else◌,
}
use so.Server.Operations
use so.Server.Operations.{global, Event, rdlock, wrlock, unlock}
use so.Server.Job
use so.Server.Job.{Action, event, sleep, child, await_child, help}
use so.Stages.Third.Job.{State}
use so.Stages.Third.Forget.{forget_store}

abbrev pub is_global : Event → Bool
is_global (rdlock global) = true
is_global (wrlock global) = true
is_global (unlock global) = true
is_global _ = false

-- The actions without those on the global lock, and without the names of the backup files.
abbrev pub bare : List Action → List Action
bare [] = []
bare (event e ∷ xs) = let rest = bare xs in if is_global e then rest else event e ∷ rest
bare (child n path written ∷ xs) = child n [] written ∷ bare xs
bare (sleep t ∷ xs) = sleep t ∷ bare xs
bare (await_child ∷ xs) = await_child ∷ bare xs
bare (help ∷ xs) = help ∷ bare xs

pub bare-append : (xs ys : List Action) → bare (xs ++ ys) ≡ bare xs ++ bare ys
bare-append [] ys = refl
bare-append (event e ∷ xs) ys = elim (Bool-cases (is_global e)) [
  | inl skipped ↦ rw (skipped, bare-append xs ys)
  | inr listed ↦ rw (listed, bare-append xs ys)
]
bare-append (child n path written ∷ xs) ys = rw (bare-append xs ys)
bare-append (sleep t ∷ xs) ys = rw (bare-append xs ys)
bare-append (await_child ∷ xs) ys = rw (bare-append xs ys)
bare-append (help ∷ xs) ys = rw (bare-append xs ys)

-- The table of the server without subscribers, the same counters, and the same actions but for
-- those.
pub data Similar : State → Job.State → Type 0 where
  similar :
      (store : Operations.Store) (total active : ℕ) (xs ys : List Action)
      → bare xs ≡ bare ys
      → Similar
          (record {
            store = forget_store store;
            total_backups = total;
            active_backups = active;
            actions = xs;
          })
          (record { store = store; total_backups = total; active_backups = active; actions = ys })

-- Two runs that end alike, or in the same fault.
pub data Alike {A B : Type 0} (R : A → B → Type 0) : Run A → Run B → Type 0 where
  both : {a : A} {b : B} → R a b → Alike R (ok a) (ok b)
  neither : (why : Fault) → Alike R (fault why) (fault why)

abbrev pub SameRest : State × Bytes → Job.State × Bytes → Type 0
SameRest x y = Similar x.0 y.0 × (x.1 ≡ y.1)

pub bind-Alike :
    {A B C : Type 0} {R : A → B → Type 0} (run : Run C) (f : C → Run A) (g : C → Run B)
    → ((c : C) → Alike R (f c) (g c))
    → Alike R (run >>= f) (run >>= g)
bind-Alike (ok c) f g h = h c
bind-Alike (fault why) f g h = neither why

-- One more list of actions behind both.
pub more :
    (xs ys zs ws : List Action)
    → bare xs ≡ bare ys
    → bare zs ≡ bare ws
    → bare (xs ++ zs) ≡ bare (ys ++ ws)
more xs ys zs ws e f =
    bare-append xs zs
    ∙ ap (λ b. b ++ bare zs) e
    ∙ ap (λ b. bare ys ++ b) f
    ∙ sym (bare-append ys ws)

map-append : (xs ys : List Event) → map event (xs ++ ys) ≡ map event xs ++ map event ys
map-append [] ys = refl
map-append (x ∷ xs) ys = rw (map-append xs ys)

pub bare-locked :
    (shown : List Event)
    → bare (map event (wrlock global ∷ (shown ++ unlock global ∷ []))) ≡ bare (map event shown)
bare-locked shown =
    rw
      (
        map-append shown (unlock global ∷ []),
        bare-append (map event shown) (event (unlock global) ∷ []),
      )
      (append-nil (bare (map event shown)))
