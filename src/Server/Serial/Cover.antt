-- ===== src/Server/Serial/Cover.antt =====
-- The locks that lock_loop of kvs_write, kvs_read and kvs_delete takes cover what the calls do.
use so.Common.{
  ℕ, suc, ◌<◌, ◌==◌, Bool, false, Option, List, [], ◌∷◌, Bytes, All, pos, ok, in_bounds, length,
  length-replicate, get_or-replicate, get_or, Always, ends, >>=-every, >>=-Always, arith, ◌≡◌, ◌⊎◌,
  refl, Bool-cases, inl, inr, ap,
}
use so.Server.Kvs.{hash, table_size, Chain}
use so.Server.Sort.{Pair}
use so.Server.Locking.{Hold, shared, owned}
use so.Server.Operations.{Lock, bucket, Event, rdlock, wrlock, lock_loop, none_hashed, keys_of}
use so.Server.Operations.Locks.{
  HasBucket, taken, mark, lock_loop-Locked, IsTaking, wrlock-IsTaking, rdlock-IsTaking, one_if,
}
use so.Server.Serial.{Access, none_held, hold}
use so.Server.Serial.Accesses.{IsGuarded}
use so.Server.Serial.Guards.{after, IsSafe}
use so.Server.Serial.Commands.{
  bucket_of, holds, locks_of, Call, writing, reading, deleting, keys_in, operation, write_accesses,
  look_ups, removals, read_accesses, delete_accesses, Local,
}

-- Every event takes the lock of a bucket, in this way.
abbrev OnlyTakes : (Lock → Event) → List Event → Type 0
OnlyTakes kind es = All (λ e. (i : ℕ) × (e ≡ kind (bucket i))) es

lock_loop-OnlyTakes :
    (kind : Lock → Event) (keys : List Bytes) (hashed : List Bool)
    → Always (λ r. OnlyTakes kind r.1) (lock_loop kind keys hashed)
unfolding lock_loop
lock_loop-OnlyTakes kind [] hashed = ends tt
lock_loop-OnlyTakes kind (k ∷ ks) hashed = >>=-every (in_bounds (hash k) (length hashed)) (λ i.
    >>=-Always (λ r. OnlyTakes kind r.1) _ (lock_loop-OnlyTakes kind ks _)
      (λ r only. elim (Bool-cases (get_or hashed i false)) [
        | inl marked ↦ ends (rw marked only)
        | inr new ↦ ends (rw new ((i, refl), only))
      ]))

-- How a kind of event holds its lock.
record Takes (kind : Lock → Event) (h : Hold) : Type 0 where
  held : (i : ℕ) (es : List Event) → holds (kind (bucket i) ∷ es) ≡ (i, h) ∷ holds es
  counted : IsTaking kind

wrlock-Takes : Takes wrlock owned
wrlock-Takes = record { held = λ i es. refl; counted = wrlock-IsTaking }

rdlock-Takes : Takes rdlock shared
rdlock-Takes = record { held = λ i es. refl; counted = rdlock-IsTaking }

covered-All :
    (h : Hold) (hashed : List Bool) (held : ℕ → Hold) (keys : List Bytes)
    → All HasBucket keys
    → All (λ k. (i : ℕ) → hash k ≡ pos i → mark hashed i ≡ 1) keys
    → ((b : ℕ) → mark hashed b ≡ 1 → held b ≡ h)
    → All (λ k. held (bucket_of k) ≡ h) keys
covered-All h hashed held [] all marked holding = tt
covered-All h hashed held (k ∷ ks) ((i, e), all) (marked, others) holding =
    (rw e (holding i (marked i e)), covered-All h hashed held ks all others holding)

value-Always : {A : Type 0} {P : A → Type 0} {a : A} → Always P (ok a) → P a
value-Always (ends p) = p

module _ {kind : Lock → Event} {h : Hold} (t : Takes kind h) where
  after-held :
      (es : List Event) (held : ℕ → Hold) (b : ℕ)
      → OnlyTakes kind es
      → (held b ≡ h) ⊎ (0 < taken (bucket b) es)
      → after (holds es) held b ≡ h
  after-held [] held b only (inl e) = e
  after-held [] held b only (inr lt) = absurd (omega arith)
  after-held (x ∷ es) held b ((i, e), only) either =
      rw (e, t.held i es)
        (elim (Bool-cases (i == b)) [
          | inl at ↦ after-held es (hold held i h) b only (inl (rw at))
          | inr not_at ↦ after-held es (hold held i h) b only (elim either [
            | inl was ↦ inl (rw not_at was)
            | inr lt ↦ inr (ground (arith, rw e at lt, (t.counted (bucket b) (bucket i)).0))
          ])
        ])

  -- The locks hold the bucket of every key.
  cover :
      (keys : List Bytes)
      → All HasBucket keys
      → All
          (λ k. after (locks_of (lock_loop kind keys none_hashed)) none_held (bucket_of k) ≡ h)
          keys
  cover keys all =
      let w : length none_hashed ≡ table_size = length-replicate {A = Bool} table_size false in
      let l = lock_loop-Locked kind t.counted keys none_hashed w all in
      let only = rw l.returns at (lock_loop-OnlyTakes kind keys none_hashed) in
      let held = after (locks_of (lock_loop kind keys none_hashed)) none_held in
      covered-All h l.after held keys all l.covers (
        rw l.returns (λ b marked. after-held l.events none_held b (value-Always only) (
          inr (
            omega
              (arith, ap one_if (get_or-replicate table_size b false), l.takes_marked b, marked)))))

write_accesses-IsGuarded :
    (held : ℕ → Hold) (memory : ℕ → Option (List ℕ)) (i : ℕ) (ps : List Pair)
    → All (λ k. held (bucket_of k) ≡ owned) (keys_of ps)
    → IsGuarded held (write_accesses memory i ps)
unfolding write_accesses keys_of
write_accesses-IsGuarded held memory i [] all = tt
write_accesses-IsGuarded held memory i (p ∷ ps) (e, all) =
    (e, write_accesses-IsGuarded held memory (suc i) ps all)

look_ups-IsGuarded :
    (held : ℕ → Hold) (keys : List Bytes) (last : List (Access Chain Local))
    → All (λ k. held (bucket_of k) ≡ shared) keys
    → IsGuarded held last
    → IsGuarded held (look_ups keys last)
unfolding look_ups
look_ups-IsGuarded held [] last all h = h
look_ups-IsGuarded held (k ∷ ks) last (e, all) h =
    ((λ f. cc), look_ups-IsGuarded held ks last all h)

removals-IsGuarded :
    (held : ℕ → Hold) (keys : List Bytes) (last : List (Access Chain Local))
    → All (λ k. held (bucket_of k) ≡ owned) keys
    → IsGuarded held last
    → IsGuarded held (removals keys last)
unfolding removals
removals-IsGuarded held [] last all h = h
removals-IsGuarded held (k ∷ ks) last (e, all) h = (e, removals-IsGuarded held ks last all h)

pub operation-IsSafe : (c : Call) → All HasBucket (keys_in c) → IsSafe (operation c)
unfolding operation read_accesses delete_accesses
operation-IsSafe (writing memory ps) all =
    write_accesses-IsGuarded _ memory 0 ps (cover wrlock-Takes (keys_of ps) all)
operation-IsSafe (reading keys) all = look_ups-IsGuarded _ keys _ (cover rdlock-Takes keys all) tt
operation-IsSafe (deleting keys) all = removals-IsGuarded _ keys _ (cover wrlock-Takes keys all) tt
