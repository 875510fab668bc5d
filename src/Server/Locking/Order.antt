-- ===== src/Server/Locking/Order.antt =====
-- Programs that take their locks in one order, and what holds while they run.
use so.Common.{ℕ, suc, ◌≤◌, ◌<◌, ◌==◌, List, [], ◌∷◌, ◌≡◌, ◌≢◌, Bool-cases, inl, inr}
use so.Server.Kvs.{table_size}
use so.Server.Operations.{Lock, global, backups, bucket, Event, rdlock, wrlock, unlock, output}
use so.Server.Locking.{
  Hold, free, shared, owned, Thread, hold, none_held, System, put, Step, take_shared, take_owned,
  release, write_out, Reach, start, later,
}

-- The global lock and the mutex of the backups come before the locks of the buckets. No thread takes
-- one of the two while it holds the other.
abbrev pub rank : Lock → ℕ
rank global = 0
rank backups = 0
rank (bucket i) = suc i

-- Every lock that is held stands below the one that is taken.
abbrev pub IsAbove : (Lock → Hold) → Lock → Type 0
IsAbove held l = ((m : Lock) → held m ≢ free → rank m < rank l) × (rank l ≤ table_size)

-- From these holds on, the locks are taken upwards, and none is held at the end.
abbrev pub IsOrderly : (Lock → Hold) → List Event → Type 0
IsOrderly held [] = (l : Lock) → held l ≡ free
IsOrderly held (rdlock l ∷ es) = IsAbove held l × IsOrderly (hold held l shared) es
IsOrderly held (wrlock l ∷ es) = IsAbove held l × IsOrderly (hold held l owned) es
IsOrderly held (unlock l ∷ es) = IsOrderly (hold held l free) es
IsOrderly held (output text ∷ es) = IsOrderly held es

abbrev pub AllOrderly : ℕ → System → Type 0
AllOrderly n s = (j : ℕ) → j < n → IsOrderly (s j).held (s j).todo

put-IsOrderly :
    (s : System) (i j : ℕ) (t : Thread)
    → IsOrderly t.held t.todo
    → IsOrderly (s j).held (s j).todo
    → IsOrderly (put s i t j).held (put s i t j).todo
put-IsOrderly s i j t h k = elim (Bool-cases (i == j)) [ inl e ↦ rw e h | inr e ↦ rw e k ]

Step-AllOrderly : {n : ℕ} {s t : System} → Step n s t → AllOrderly n s → AllOrderly n t
Step-AllOrderly {n} {s} (take_shared i l es lt e free_now) h j k =
    put-IsOrderly s i j _ (rw e at (h i lt)).1 (h j k)
Step-AllOrderly {n} {s} (take_owned i l es lt e free_now) h j k =
    put-IsOrderly s i j _ (rw e at (h i lt)).1 (h j k)
Step-AllOrderly {n} {s} (release i l es lt e) h j k =
    put-IsOrderly s i j _ (rw e at (h i lt)) (h j k)
Step-AllOrderly {n} {s} (write_out i text es lt e) h j k =
    put-IsOrderly s i j _ (rw e at (h i lt)) (h j k)

pub Reach-AllOrderly :
    {n : ℕ} {programs : ℕ → List Event} {s : System}
    → ((j : ℕ) → j < n → IsOrderly none_held (programs j))
    → Reach n programs s
    → AllOrderly n s
Reach-AllOrderly orderly start = orderly
Reach-AllOrderly orderly (later r st) = Step-AllOrderly st (Reach-AllOrderly orderly r)
