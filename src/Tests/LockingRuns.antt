-- ===== src/Tests/LockingRuns.antt =====
-- Two threads on an empty table.
use so.Common.{ℕ, zero, suc, ◌<◌, List, [], ◌∷◌, codes, ok, replicate, arith, ◌≡◌, refl, ◌⊎◌, ◌≢◌}
use so.Server.Kvs.{HashTable, table_size, hash, read_pair, add_subscriber, find_node}
use so.Server.Sort.{insertion_sort}
use so.Server.Operations.{
  live, bucket, Event, rdlock, wrlock, unlock, output, kvs_read, kvs_subscribe, lock_loop,
  unlock_loop, read_loop, sprintf, with_bucket, keys_of,
}
use so.Server.Job.{sort_keys}
use so.Server.Locking.{free, owned, System, Reach, start, later, take_shared}
use so.Server.Locking.Progress.{CanStep}
use so.Server.Locking.Programs.{Program, idle, read, subscribe, Program-CanStep}

abbrev empty : HashTable
empty = record { table = replicate table_size [] }

abbrev read_b : List Event
read_b =
    rdlock (bucket 1)
    ∷ output (codes "[")
    ∷ output (codes "(b,KVSERROR)")
    ∷ output (codes "]\n")
    ∷ unlock (bucket 1)
    ∷ []

read_b-runs : kvs_read (live empty) (sort_keys (codes "b" ∷ [])) ≡ ok (live empty, 0, read_b)
unfolding kvs_read lock_loop read_loop sprintf hash unlock_loop sort_keys insertion_sort keys_of
    read_pair find_node
read_b-runs = refl

abbrev subscribe_b : List Event
subscribe_b = wrlock (bucket 1) ∷ unlock (bucket 1) ∷ []

subscribe_b-runs : kvs_subscribe (live empty) (codes "b") 5 ≡ ok (live empty, 1, subscribe_b)
unfolding kvs_subscribe with_bucket hash add_subscriber find_node
subscribe_b-runs = refl

abbrev programs : ℕ → List Event
programs zero = read_b
programs (suc j) = subscribe_b

programs-Program : (j : ℕ) → j < 2 → Program (programs j)
programs-Program zero lt =
    read (live empty) (codes "b" ∷ []) (live empty, 0, read_b) ((omega arith, omega arith), tt)
      read_b-runs idle
programs-Program (suc j) lt =
    subscribe (live empty) (codes "b") 5 (live empty, 1, subscribe_b) subscribe_b-runs idle

free-ne_owned : (j : ℕ) → j < 2 → free ≢ owned
free-ne_owned j lt = λ e. cc

-- The first thread has the lock, and the second one has to wait.
abbrev reading : (s : System) × Reach 2 programs s
reading = (_, later start (take_shared 0 (bucket 1) _ (omega arith) refl free-ne_owned))

Program-CanStep_example : ((j : ℕ) → j < 2 → (reading.0 j).todo ≡ []) ⊎ CanStep 2 reading.0
Program-CanStep_example = Program-CanStep programs-Program reading.1
