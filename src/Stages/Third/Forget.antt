-- ===== src/Stages/Third/Forget.antt =====
-- The operations of SO-Parte1/grupo5-ex3 against those of the server: on a table without subscribers
-- they do what the server does.
use so.Common.{
  ℕ, Bool, true, false, Option, List, [], ◌∷◌, ◌++◌, Bytes, Run, ok, fault, ◌>>=◌, ◌≡◌, refl, codes,
  inl, inr,
}
use so.Server.Kvs.{Chain}
use so.Server.Sort.{Pair}
use so.Server.Operations
use so.Server.Operations.{Lock, global, bucket, Event, rdlock, wrlock, unlock, output}
use so.Stages.Table.Forget.{allocated, forget, forget_chain, forget_table, Run-cases}
use so.Stages.First.{Store, null, live, dangling}
use so.Stages.Third.Operations.{
  freed_loop, none_hashed, unlock_loop, kvs_write, kvs_read, kvs_delete,
}
use so.Stages.Third.Loops.{
  lock_loop-same, unlock_loop-same, keys_of-same, write_pairs-same, read_loop-same,
  delete_loop-same,
}
use so.Stages.Third.{show_chain, show_table, kvs_show, kvs_show_backup}

abbrev pub forget_store : Operations.Store → Store
forget_store Operations.null = null
forget_store (Operations.live ht) = live (forget ht)
forget_store Operations.dangling = dangling

-- What a call leaves and does, with the subscribers forgotten.
abbrev pub forget_call : Run (Operations.Store × ℕ × List Event) → Run (Store × ℕ × List Event)
forget_call (fault why) = fault why
forget_call (ok (s, status, events)) = ok (forget_store s, status, events)

-- A bracket of locks around a loop on a table that has been freed.
freed_call :
    (n : ℕ) (locks : Run (List Bool × List Event)) (replies : Run (List Event))
    (events : List Bool × List Event → List Event → List Event)
    → (do l ← locks; r ← replies; ok (dangling, n, events l r))
      ≡ forget_call (do l ← locks; r ← replies; ok (Operations.dangling, n, events l r))
freed_call n (fault why) replies events = refl
freed_call n (ok l) (fault why) events = refl
freed_call n (ok l) (ok r) events = refl

freed_loop-same {ℓ} : {A : Type ℓ} → (xs : List A) → freed_loop xs ≡ Operations.freed_loop xs
freed_loop-same [] = refl
freed_loop-same (x ∷ xs) = refl

pub kvs_write-forget :
    (memory : ℕ → Option (List ℕ)) (s : Operations.Store) (ps : List Pair)
    → kvs_write (λ j. allocated (memory j)) (forget_store s) ps
      ≡ forget_call (Operations.kvs_write memory s ps)
unfolding kvs_write unlock_loop Operations.kvs_write Operations.unlock_loop
kvs_write-forget memory Operations.null ps = refl
kvs_write-forget memory Operations.dangling ps =
    rw
      (
        keys_of-same ps,
        lock_loop-same wrlock (Operations.keys_of ps) none_hashed,
        freed_loop-same ps,
      )
      (freed_call 0 (Operations.lock_loop wrlock (Operations.keys_of ps) none_hashed)
        (Operations.freed_loop ps)
        (λ l r.
          (rdlock global ∷ l.1) ++ (r ++ (Operations.unlock_loop 0 l.0 ++ unlock global ∷ []))))
kvs_write-forget memory (Operations.live ht) ps =
    elim (Run-cases (Operations.lock_loop wrlock (Operations.keys_of ps) none_hashed)) [
      | inl (why, e) ↦
          rw (keys_of-same ps, lock_loop-same wrlock (Operations.keys_of ps) none_hashed, e)
      | inr (l, e) ↦ elim (Run-cases (Operations.write_pairs memory 0 ps ht)) [
        | inl (why, f) ↦ rw (
          keys_of-same ps,
          lock_loop-same wrlock (Operations.keys_of ps) none_hashed,
          e,
          ◌>>=◌,
          write_pairs-same memory 0 ps ht,
          f,
        )
        | inr (after, f) ↦ rw (
          keys_of-same ps,
          lock_loop-same wrlock (Operations.keys_of ps) none_hashed,
          e,
          ◌>>=◌,
          write_pairs-same memory 0 ps ht,
          f,
          unlock_loop-same 0 l.0,
        )
      ]
    ]

pub kvs_read-forget :
    (s : Operations.Store) (keys : List Bytes)
    → kvs_read (forget_store s) keys ≡ forget_call (Operations.kvs_read s keys)
unfolding kvs_read unlock_loop Operations.kvs_read Operations.unlock_loop
kvs_read-forget Operations.null keys = refl
kvs_read-forget Operations.dangling keys =
    rw (lock_loop-same rdlock keys none_hashed, freed_loop-same keys)
      (freed_call 0 (Operations.lock_loop rdlock keys none_hashed) (Operations.freed_loop keys)
        (λ l r.
          l.1
          ++ (((output (codes "[") ∷ r) ++ output (codes "]\n") ∷ [])
              ++ Operations.unlock_loop 0 l.0)))
kvs_read-forget (Operations.live ht) keys =
    elim (Run-cases (Operations.lock_loop rdlock keys none_hashed)) [
      | inl (why, e) ↦ rw (lock_loop-same rdlock keys none_hashed, e)
      | inr (l, e) ↦ elim (Run-cases (Operations.read_loop ht keys)) [
        | inl (why, f) ↦
            rw (lock_loop-same rdlock keys none_hashed, e, ◌>>=◌, read_loop-same ht keys, f)
        | inr (replies, f) ↦
            rw (lock_loop-same rdlock keys none_hashed, e, ◌>>=◌, read_loop-same ht keys, f)
      ]
    ]

pub kvs_delete-forget :
    (s : Operations.Store) (keys : List Bytes)
    → kvs_delete (forget_store s) keys ≡ forget_call (Operations.kvs_delete s keys)
unfolding kvs_delete unlock_loop Operations.kvs_delete Operations.unlock_loop
kvs_delete-forget Operations.null keys = refl
kvs_delete-forget Operations.dangling keys =
    rw (lock_loop-same wrlock keys none_hashed, freed_loop-same keys)
      (freed_call 0 (Operations.lock_loop wrlock keys none_hashed) (Operations.freed_loop keys)
        (λ l r.
          (rdlock global ∷ l.1) ++ (r ++ (Operations.unlock_loop 0 l.0 ++ unlock global ∷ []))))
kvs_delete-forget (Operations.live ht) keys =
    elim (Run-cases (Operations.lock_loop wrlock keys none_hashed)) [
      | inl (why, e) ↦ rw (lock_loop-same wrlock keys none_hashed, e)
      | inr (l, e) ↦ elim (Run-cases (Operations.delete_loop false keys ht)) [
        | inl (why, f) ↦
            rw (lock_loop-same wrlock keys none_hashed, e, ◌>>=◌, delete_loop-same false keys ht, f)
        | inr (r, f) ↦
            rw (lock_loop-same wrlock keys none_hashed, e, ◌>>=◌, delete_loop-same false keys ht, f)
      ]
    ]

show_chain-same : (c : Chain) → show_chain (forget_chain c) ≡ Operations.show_chain c
unfolding show_chain Operations.show_chain
show_chain-same [] = refl
show_chain-same (n ∷ c) = rw (show_chain-same c)

pub show_table-same : (cs : List Chain) → show_table (forget_table cs) ≡ Operations.show_table cs
unfolding show_table Operations.show_table
show_table-same [] = refl
show_table-same (c ∷ cs) = rw (show_chain-same c, show_table-same cs)

-- The two shows, with the lock and without it.
pub kvs_show-forget :
    (s : Operations.Store)
    → (kvs_show (forget_store s) ≡ Operations.kvs_show true s)
      × (kvs_show_backup (forget_store s) ≡ Operations.kvs_show false s)
unfolding kvs_show kvs_show_backup Operations.kvs_show
kvs_show-forget Operations.null = (refl, refl)
kvs_show-forget Operations.dangling = (refl, refl)
kvs_show-forget (Operations.live ht) =
    (rw (show_table-same ht.table), rw (show_table-same ht.table))

-- Whether there is no table, a table, or one that has been freed, and whichever of the calls of
-- `malloc` succeed: kvs_write, kvs_read, kvs_delete and kvs_show of the third exercise, on the table
-- without subscribers, take the locks, write the output and return the status of those of the
-- server, or fault alike; and they leave the server's table without subscribers.
pub operations-forget :
    (memory : ℕ → Option (List ℕ)) (s : Operations.Store) (ps : List Pair) (keys : List Bytes)
    → (kvs_write (λ j. allocated (memory j)) (forget_store s) ps
        ≡ forget_call (Operations.kvs_write memory s ps))
      × (kvs_read (forget_store s) keys ≡ forget_call (Operations.kvs_read s keys))
      × (kvs_delete (forget_store s) keys ≡ forget_call (Operations.kvs_delete s keys))
      × (kvs_show (forget_store s) ≡ Operations.kvs_show true s)
operations-forget memory s ps keys = (
  kvs_write-forget memory s ps,
  kvs_read-forget s keys,
  kvs_delete-forget s keys,
  (kvs_show-forget s).0,
)
