-- ===== src/Server/Locking/Holds.antt =====
-- The loops of the operations that take and release the bucket locks, on sorted keys that start with
-- lower-case letters.
use mathlib.Core.Path.{fun_ext, subst}
use so.Common.{
  ℕ, suc, ◌-◌, ◌≤◌, ◌<◌, ◌==◌, ltb, if◌then◌else◌, Bool, true, false, List, [], ◌∷◌, ◌++◌, Bytes,
  All, ok, length, get_or, set, length-set, get_or-set, get_or-replicate, arith, ◌≡◌, refl, sym,
  ◌∙◌, ◌>>=◌, Bool-cases, inl, inr, ◌⊎◌, ==_iff,
}
use so.Server.Kvs.{table_size}
use so.Server.Kvs.Table.{hash-lt}
use so.Server.Operations.{
  Lock, global, backups, bucket, Event, rdlock, wrlock, lock_loop, unlock_loop, none_hashed,
}
use so.Server.Operations.Locks.{located}
use so.Server.Operations.LockOrder.{
  IsLower, IsSortedKeys, letter, hash-letter, sorted-above, lock_first, marked-ne,
}
use so.Server.Locking.{Hold, free, shared, owned, hold}
use so.Server.Locking.Order.{IsAbove, IsOrderly}

-- The holds of a thread in the middle of an operation: the marked buckets from `i` on, and the
-- global lock.
abbrev pub holds : ℕ → List Bool → Hold → Hold → Lock → Hold
holds i marks mode g global = g
holds i marks mode g backups = free
holds i marks mode g (bucket j) =
    if ltb j i then free else if get_or marks (j - i) false then mode else free

compare_cases : (a b : ℕ) → (a < b) ⊎ ((a ≡ b) ⊎ (b < a))
compare_cases a b = ground arith

abbrev pub only_global : Hold → Lock → Hold
only_global g global = g
only_global g backups = free
only_global g (bucket j) = free

holds-set :
    (marks : List Bool) (i : ℕ) (mode g : Hold)
    → i < length marks
    → (m : Lock)
    → hold (holds 0 marks mode g) (bucket i) mode m ≡ holds 0 (set marks i true) mode g m
holds-set marks i mode g lt global = refl
holds-set marks i mode g lt backups = refl
holds-set marks i mode g lt (bucket j) = ground (arith, get_or-set marks i j true false lt)

holds-unlock :
    (i : ℕ) (b : Bool) (marks : List Bool) (mode g : Hold)
    → (m : Lock)
    → hold (holds i (b ∷ marks) mode g) (bucket i) free m ≡ holds (suc i) marks mode g m
holds-unlock i b marks mode g global = refl
holds-unlock i b marks mode g backups = refl
holds-unlock i b marks mode g (bucket j) = elim (compare_cases j i) [
  | inl lt ↦ ground arith
  | inr (inl e) ↦ ground arith
  | inr (inr gt) ↦ let e : j - i ≡ suc (j - suc i) = omega arith in rw e (ground arith)
]

holds-skip :
    (i : ℕ) (marks : List Bool) (mode g : Hold)
    → (m : Lock) → holds i (false ∷ marks) mode g m ≡ holds (suc i) marks mode g m
holds-skip i marks mode g global = refl
holds-skip i marks mode g backups = refl
holds-skip i marks mode g (bucket j) = elim (compare_cases j i) [
  | inl lt ↦ ground arith
  | inr (inl e) ↦ let f : j - i ≡ 0 = omega arith in rw f (ground arith)
  | inr (inr gt) ↦ let e : j - i ≡ suc (j - suc i) = omega arith in rw e (ground arith)
]

holds-nil : (i : ℕ) (mode g : Hold) (m : Lock) → holds i [] mode g m ≡ only_global g m
holds-nil i mode g global = refl
holds-nil i mode g backups = refl
holds-nil i mode g (bucket j) = ground arith

pub holds-none : (mode g : Hold) (m : Lock) → holds 0 none_hashed mode g m ≡ only_global g m
holds-none mode g global = refl
holds-none mode g backups = refl
holds-none mode g (bucket j) = ground (arith, get_or-replicate table_size j false)

pub IsOrderly-same :
    {held other : Lock → Hold} (es : List Event)
    → ((m : Lock) → held m ≡ other m)
    → IsOrderly other es
    → IsOrderly held es
IsOrderly-same es same h = subst (λ k. IsOrderly k es) (sym (fun_ext same)) h

holds-IsAbove :
    (marks : List Bool) (i : ℕ) (mode g : Hold)
    → i < table_size
    → ((j : ℕ) → get_or marks j false ≡ true → j < i)
    → IsAbove (holds 0 marks mode g) (bucket i)
holds-IsAbove marks i mode g lt below = (
  elim [
    | global ↦ λ h. omega arith
    | backups ↦ λ h. omega arith
    | bucket j ↦ λ h. ground (arith, below j)
  ],
  omega arith,
)

-- `r.1` may run where the marks of `hashed` are held, and leaves those of `r.0` held.
abbrev pub LeadsTo : Hold → Hold → List Bool → List Bool × List Event → Type 0
LeadsTo mode g hashed r =
    (rest : List Event)
    → IsOrderly (holds 0 r.0 mode g) rest
    → IsOrderly (holds 0 hashed mode g) (r.1 ++ rest)

-- The event takes the lock in this mode.
abbrev pub TakesAs : (Lock → Event) → Hold → Type 0
TakesAs kind mode =
    (held : Lock → Hold) (l : Lock) (es : List Event)
    → IsAbove held l
    → IsOrderly (hold held l mode) es
    → IsOrderly held (kind l ∷ es)

pub rdlock-TakesAs : TakesAs rdlock shared
rdlock-TakesAs held l es above h = (above, h)

pub wrlock-TakesAs : TakesAs wrlock owned
wrlock-TakesAs held l es above h = (above, h)

marks_above :
    (marks : List Bool) (i j : ℕ) (ks : List Bytes)
    → i < length marks
    → All (λ q. i ≤ letter q) ks
    → (get_or marks j false ≡ true → All (λ q. j ≤ letter q) ks)
    → get_or (set marks i true) j false ≡ true
    → All (λ q. j ≤ letter q) ks
marks_above marks i j ks lt new old m = elim (Bool-cases (i == j)) [
  | inl same ↦ subst (λ x. All (λ q. x ≤ letter q) ks) ((==_iff i j).0 same) new
  | inr other ↦ old (ground (arith, get_or-set marks i j true false lt))
]

module _ (kind : Lock → Event) (mode : Hold) (taking : TakesAs kind mode) (g : Hold) where
  pub lock_loop-LeadsTo :
      (keys : List Bytes) (hashed : List Bool)
      → length hashed ≡ table_size
      → All IsLower keys
      → IsSortedKeys keys
      → ((j : ℕ) → get_or hashed j false ≡ true → All (λ q. j ≤ letter q) keys)
      → (r : List Bool × List Event) × (lock_loop kind keys hashed ≡ ok r) × LeadsTo mode g hashed r
  unfolding lock_loop
  lock_loop-LeadsTo [] hashed w lower sorted below = ((hashed, []), refl, λ rest h. h)
  lock_loop-LeadsTo (k ∷ ks) hashed w lower sorted below =
      let e = hash-letter k lower.0 in
      elim (Bool-cases (get_or hashed (letter k) false)) [
        | inl old ↦
            let (r, f, leads) =
              lock_loop-LeadsTo ks hashed w lower.1 sorted.1 (λ j m. (below j m).1) in
            (r, rw (located k hashed w e, ◌>>=◌, old, if◌then◌else◌, f), leads)
        | inr new ↦
            let i = letter k in
            let lt : i < length hashed = rw w (hash-lt k e) in
            let (r, f, leads) =
              lock_loop-LeadsTo ks (set hashed i true) (length-set hashed i true ∙ w) lower.1
                sorted.1
                (λ j.
                  marks_above hashed i j ks lt (sorted-above k ks lower.0 lower.1 sorted.0)
                    (λ m. (below j m).1)) in
            (
              (r.0, kind (bucket i) ∷ r.1),
              lock_first kind k ks hashed w e new f,
              λ rest h.
                  taking (holds 0 hashed mode g) (bucket i) (r.1 ++ rest)
                    (holds-IsAbove hashed i mode g (hash-lt k e)
                      (λ j m. omega (arith, (below j m).0, marked-ne hashed j i m new)))
                    (IsOrderly-same (r.1 ++ rest) (holds-set hashed i mode g lt) (leads rest h)),
            )
      ]

pub unlock_loop-IsOrderly :
    (i : ℕ) (marks : List Bool) (mode g : Hold) (rest : List Event)
    → IsOrderly (only_global g) rest
    → IsOrderly (holds i marks mode g) (unlock_loop i marks ++ rest)
unfolding unlock_loop
unlock_loop-IsOrderly i [] mode g rest h = IsOrderly-same rest (holds-nil i mode g) h
unlock_loop-IsOrderly i (true ∷ marks) mode g rest h =
    IsOrderly-same (unlock_loop (suc i) marks ++ rest) (holds-unlock i true marks mode g)
      (unlock_loop-IsOrderly (suc i) marks mode g rest h)
unlock_loop-IsOrderly i (false ∷ marks) mode g rest h =
    IsOrderly-same (unlock_loop (suc i) marks ++ rest) (holds-skip i marks mode g)
      (unlock_loop-IsOrderly (suc i) marks mode g rest h)
