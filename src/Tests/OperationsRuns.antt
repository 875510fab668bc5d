-- ===== src/Tests/OperationsRuns.antt =====
-- The order of the locks.
use so.Common.{Bool, false, List, [], ◌∷◌, Bytes, codes, ok, str_gt, strcmp, arith, ◌≡◌, refl}
use so.Server.Operations.{wrlock, bucket, lock_loop, none_hashed}
use so.Server.Operations.LockOrder.{EventsOf, Rises, IsSortedKeys, lock_loop-Rises, lock_loop-falls}

abbrev letters : List Bytes
letters = codes "ab" ∷ codes "ac" ∷ codes "x" ∷ []

letters-IsSortedKeys : IsSortedKeys letters
unfolding strcmp
letters-IsSortedKeys = ((refl, (refl, tt)), ((refl, tt), (tt, tt)))

lock_loop-Rises_example : EventsOf Rises (lock_loop wrlock letters none_hashed)
lock_loop-Rises_example =
    lock_loop-Rises wrlock (λ i. refl) letters
      ((omega arith, omega arith), ((omega arith, omega arith), ((omega arith, omega arith), tt)))
      letters-IsSortedKeys

lock_loop-falls_example :
    (str_gt (codes "9z") (codes "b") ≡ false)
    × (after : List Bool) × (lock_loop wrlock (codes "9z" ∷ codes "b" ∷ []) none_hashed
        ≡ ok (after, wrlock (bucket 9) ∷ wrlock (bucket 1) ∷ []))
lock_loop-falls_example =
    lock_loop-falls wrlock b'9' b'b' (codes "z") [] (omega arith) (omega arith) (omega arith)
      (omega arith) (omega arith)
