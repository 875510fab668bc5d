-- ===== src/Server/Operations/Lifetime.antt =====
-- The operations before kvs_init; kvs_wait.
use so.Common.{
  ℕ, ◌+◌, ◌*◌, ◌≤◌, ◌<◌, Bool, Option, List, [], Bytes, ok, fault, null_pointer, arith, ◌≡◌, refl,
}
use so.Input.{uint_max}
use so.Server.Sort.{Pair}
use so.Server.Operations.{
  null, kvs_terminate, kvs_write, kvs_read, kvs_delete, kvs_show, kvs_subscribe, kvs_unsubscribe,
  kvs_wait,
}

-- Before `kvs_init` the operations report 1 and do nothing, but `kvs_show` dereferences NULL.
pub before_init :
    (memory : ℕ → Option (List ℕ)) (ps : List Pair) (keys : List Bytes) (key : Bytes) (fd : ℕ)
    (locked : Bool)
    → (kvs_write memory null ps ≡ ok (null, 1, []))
      × (kvs_read null keys ≡ ok (null, 1, []))
      × (kvs_delete null keys ≡ ok (null, 1, []))
      × (kvs_subscribe null key fd ≡ ok (null, 1, []))
      × (kvs_unsubscribe null key fd ≡ ok (null, 1, []))
      × (kvs_terminate null ≡ ok (null, 1))
      × (kvs_show locked null ≡ fault null_pointer)
unfolding kvs_write kvs_read kvs_delete kvs_subscribe kvs_unsubscribe kvs_terminate kvs_show
before_init memory ps keys key fd locked = (refl, refl, refl, refl, refl, refl, refl)

-- For a delay that an `unsigned int` holds, `tv_nsec` is below a second, and the two fields make up
-- the delay: the product in milliseconds does not wrap.
pub kvs_wait-timespec :
    (delay_ms : ℕ)
    → delay_ms ≤ uint_max
    → ((kvs_wait delay_ms).1 < 1000000000)
      × ((kvs_wait delay_ms).0 * 1000000000 + (kvs_wait delay_ms).1 ≡ delay_ms * 1000000)
unfolding kvs_wait
kvs_wait-timespec delay_ms small = (omega arith, omega arith)
