-- ===== src/Server/Operations/Balance.antt =====
-- The locks of one operation: how often each is taken and released.
use so.Common.{
  ℕ, ◌+◌, ◌≤◌, Bool, false, List, [], ◌∷◌, ◌++◌, Bytes, All, Run, get_or, arith, ◌≡◌,
  length-replicate, get_or-replicate, Bool-cases, inl, inr,
}
use native.Mathlib.Nat.{zero-add}
use so.Server.Kvs.{table_size}
use so.Server.Operations.{
  Lock, global, backups, bucket, Event, rdlock, unlock, lock_loop, unlock_loop, none_hashed,
}
use so.Server.Operations.Locks.{
  one_if, same_lock, HasBucket, taken, released, taken-append, released-append, mark, IsTaking,
  Locked, lock_loop-Locked, unlock_loop-released, unlock_loop-taken, unlock_loop-not_global,
  unlock_loop-not_backups,
}

-- Every lock is released as often as it is taken, and none is taken twice.
pub record Balanced (events : List Event) : Type 0 where
  pub paired : (l : Lock) → taken l events ≡ released l events
  pub once : (l : Lock) → taken l events ≤ 1

mark-le : (hashed : List Bool) (j : ℕ) → mark hashed j ≤ 1
mark-le hashed j = elim (Bool-cases (get_or hashed j false)) [
  | inl e ↦ rw e (omega arith)
  | inr e ↦ rw e (omega arith)
]

mark-none : (j : ℕ) → mark none_hashed j ≡ 0
mark-none j = rw get_or-replicate

pub keys_Locked :
    (kind : Lock → Event) (taking : IsTaking kind) (keys : List Bytes)
    → All HasBucket keys
    → Locked keys none_hashed (lock_loop kind keys none_hashed)
keys_Locked kind taking keys h =
    lock_loop-Locked kind taking keys none_hashed (length-replicate {A = Bool} table_size false) h

-- The locks of the keys, some events that touch no lock, and the unlocking of the marked buckets.
module _ {keys : List Bytes} {run : Run (List Bool × List Event)}
    (k : Locked keys none_hashed run) where
  pub marks_taken : (j : ℕ) → mark k.after j ≡ taken (bucket j) k.events
  marks_taken j = omega (arith, k.takes_marked j, mark-none j)

  module _ (middle : List Event)
      (quiet : (l : Lock) → (taken l middle ≡ 0) × (released l middle ≡ 0)) where
    counts :
        (l : Lock)
        → (taken l k.events ≡ released l (unlock_loop 0 k.after))
          × (taken l k.events + one_if (same_lock l global) ≤ 1)
    counts global =
        (omega (arith, k.not_global, unlock_loop-not_global 0 k.after), omega (arith, k.not_global))
    counts backups = (
      omega (arith, k.not_backups, unlock_loop-not_backups 0 k.after),
      omega (arith, k.not_backups),
    )
    counts (bucket j) =
        let m = mark-le k.after j in
        let t = marks_taken j in
        let u = rw zero-add at (unlock_loop-released j 0 k.after) in
        (omega (arith, t, u), omega (arith, m, t))

    -- kvs_read: the locks of the buckets, and nothing around them.
    pub inner-Balanced : Balanced (k.events ++ (middle ++ unlock_loop 0 k.after))
    inner-Balanced = record {
      paired = λ l. omega (
        arith,
        taken-append,
        released-append,
        (counts l).0,
        quiet l,
        k.releases_none l,
        unlock_loop-taken l 0 k.after,
      );
      once = λ l. omega (arith, taken-append, (counts l).1, quiet l, unlock_loop-taken l 0 k.after);
    }

    -- kvs_write and kvs_delete: the global lock around those of the buckets.
    pub outer-Balanced :
        Balanced
          ((rdlock global ∷ k.events) ++ (middle ++ (unlock_loop 0 k.after ++ unlock global ∷ [])))
    outer-Balanced =
        let last = unlock global ∷ [] in
        let rest = unlock_loop 0 k.after ++ last in
        let t = λ (l : Lock). taken-append l k.events (middle ++ rest) in
        let u = λ (l : Lock). taken-append l middle rest in
        let v = λ (l : Lock). taken-append l (unlock_loop 0 k.after) last in
        record {
          paired = λ l. omega (
            arith,
            t l,
            u l,
            v l,
            released-append l k.events (middle ++ rest),
            released-append l middle rest,
            released-append l (unlock_loop 0 k.after) last,
            (counts l).0,
            quiet l,
            k.releases_none l,
            unlock_loop-taken l 0 k.after,
          );
          once = λ l.
              omega (arith, t l, u l, v l, (counts l).1, quiet l, unlock_loop-taken l 0 k.after);
        }

    pub outer-taken :
        (j : ℕ)
        → taken (bucket j) (
            (rdlock global ∷ k.events) ++ (middle ++ (unlock_loop 0 k.after ++ unlock global ∷ [])))
          ≡ mark k.after j
    outer-taken j =
        let last = unlock global ∷ [] in
        let rest = unlock_loop 0 k.after ++ last in
        let b = bucket j in
        omega (
          arith,
          marks_taken j,
          taken-append b k.events (middle ++ rest),
          taken-append b middle rest,
          taken-append b (unlock_loop 0 k.after) last,
          quiet b,
          unlock_loop-taken b 0 k.after,
        )
