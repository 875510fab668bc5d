-- ===== src/Server/Operations.antt =====
-- SOParte2/src/server/operations.c: the operations on the static `kvs_table`, with the locks that
-- they take and what they write to `output_fd`, in order. What goes to stderr is left out.
pub mod Locks
pub mod Balance
pub mod Writes
pub mod Replies
pub mod Output
pub mod Deletes
pub mod Lifetime
pub mod LockOrder
use so.Common.{
  ℕ, zero, suc, ◌+◌, ◌-◌, ◌*◌, ◌/◌, ◌%◌, ◌==◌, ltb, if◌then◌else◌, Bool, true, false, Option, none,
  some, List, [], ◌∷◌, ◌++◌, Bytes, codes, ℤ, pos, negsuc, Run, ok, fault, out_of_bounds,
  null_pointer, use_after_free, in_bounds, length, get_or, set, replicate, take, ◌>>=◌, ◌^◌,
}
use so.Server.Kvs.{
  KeyNode, Chain, HashTable, hash, table_size, max_string_size, create_hash_table, write_pair,
  read_pair, delete_pair, add_subscriber, remove_subscriber,
}
use so.Server.Sort.{Pair}

-- `kvs_table`: NULL, a table, or a table that has been freed.
pub data Store : Type 0 where
  null : Store
  live : HashTable → Store
  dangling : Store

-- `data->rwlock`, `data->backup_mutex` and `data->rwlock_array[i]`
pub data Lock : Type 0 where
  global : Lock
  backups : Lock
  bucket : ℕ → Lock

pub data Event : Type 0 where
  rdlock wrlock unlock : Lock → Event
  output : Bytes → Event

unfoldable pub kvs_init : Bool → Store → Store × ℕ
unfolding create_hash_table
kvs_init allocated null = elim (create_hash_table allocated) [
  | some ht ↦ (live ht, 0)
  | none ↦ (null, 1)
]
kvs_init allocated s = (s, 1)

-- `free_table` frees every node and the table, and the pointer stays.
unfoldable pub kvs_terminate : Store → Run (Store × ℕ)
kvs_terminate null = ok (null, 1)
kvs_terminate (live ht) = ok (dangling, 0)
kvs_terminate dangling = fault use_after_free

-- The test `kvs_table == NULL` at the head of the operations, and what they do with a table that
-- has been freed, which it does not notice.
abbrev pub with_table :
    Store
    → Run (Store × ℕ × List Event)
    → (HashTable → Run (Store × ℕ × List Event))
    → Run (Store × ℕ × List Event)
with_table null freed f = ok (null, 1, [])
with_table (live ht) freed f = f ht
with_table dangling freed f = freed

-- A loop over pairs or keys on a table that has been freed: the first round reads from it.
abbrev pub freed_loop {ℓ} : {A : Type ℓ} → List A → Run (List Event)
freed_loop [] = ok []
freed_loop (x ∷ xs) = fault use_after_free

-- The first loop: the lock of each bucket that `hashed` does not mark, in the order of the keys.
unfoldable pub lock_loop : (Lock → Event) → List Bytes → List Bool → Run (List Bool × List Event)
lock_loop kind [] hashed = ok (hashed, [])
lock_loop kind (k ∷ ks) hashed = do
  i ← in_bounds (hash k) (length hashed)
  let marked = get_or hashed i false
  (after, events) ← lock_loop kind ks (if marked then hashed else set hashed i true)
  ok (after, if marked then events else kind (bucket i) ∷ events)

abbrev pub none_hashed : List Bool
none_hashed = replicate table_size false

-- The last loop, from bucket `i` on.
unfoldable pub unlock_loop : ℕ → List Bool → List Event
unlock_loop i [] = []
unlock_loop i (b ∷ bs) =
    let rest = unlock_loop (suc i) bs in if b then unlock (bucket i) ∷ rest else rest

-- `malloc` for a new node at each pair; the status of `write_pair` goes to stderr only.
unfoldable pub write_pairs : (ℕ → Option (List ℕ)) → ℕ → List Pair → HashTable → Run HashTable
write_pairs memory i [] ht = ok ht
write_pairs memory i (p ∷ ps) ht = do
  (after, status) ← write_pair (memory i) ht p.0 p.1
  write_pairs memory (suc i) ps after

unfoldable pub keys_of : List Pair → List Bytes
keys_of [] = []
keys_of (p ∷ ps) = p.0 ∷ keys_of ps

unfoldable pub kvs_write : (ℕ → Option (List ℕ)) → Store → List Pair → Run (Store × ℕ × List Event)
unfolding keys_of
kvs_write memory s ps =
    let freed = (do
      (hashed, locks) ← lock_loop wrlock (keys_of ps) none_hashed
      replies ← freed_loop ps
      ok (
        s,
        0,
        (rdlock global ∷ locks) ++ (replies ++ (unlock_loop 0 hashed ++ unlock global ∷ [])),
      )) in
    with_table s freed λ ht. do
      (hashed, locks) ← lock_loop wrlock (keys_of ps) none_hashed
      after ← write_pairs memory 0 ps ht
      ok (live after, 0, (rdlock global ∷ locks) ++ (unlock_loop 0 hashed ++ unlock global ∷ []))

-- `sprintf` into a buffer of MAX_STRING_SIZE bytes.
unfoldable pub sprintf : Bytes → Run Bytes
sprintf text = if ltb (length text) max_string_size then ok text else fault out_of_bounds

-- `(key,value)` or `(key,KVSERROR)`
abbrev pub read_reply : Bytes → Option Bytes → Bytes
read_reply key none = b'(' ∷ (key ++ codes ",KVSERROR)")
read_reply key (some value) = b'(' ∷ (key ++ b',' ∷ (value ++ b')' ∷ []))

unfoldable pub read_loop : HashTable → List Bytes → Run (List Event)
read_loop ht [] = ok []
read_loop ht (k ∷ ks) = do
  result ← read_pair ht k
  buffer ← sprintf (read_reply k result)
  events ← read_loop ht ks
  ok (output buffer ∷ events)

unfoldable pub kvs_read : Store → List Bytes → Run (Store × ℕ × List Event)
kvs_read s keys =
    let freed = (do
      (hashed, locks) ← lock_loop rdlock keys none_hashed
      replies ← freed_loop keys
      ok (
        s,
        0,
        locks
            ++ (((output (codes "[") ∷ replies) ++ output (codes "]\n") ∷ [])
                ++ unlock_loop 0 hashed),
      )) in
    with_table s freed λ ht. do
      (hashed, locks) ← lock_loop rdlock keys none_hashed
      replies ← read_loop ht keys
      ok (
        s,
        0,
        locks
            ++ (((output (codes "[") ∷ replies) ++ output (codes "]\n") ∷ [])
                ++ unlock_loop 0 hashed),
      )

abbrev pub missing_reply : Bytes → Bytes
missing_reply key = b'(' ∷ (key ++ codes ",KVSMISSING)")

-- The loop, with `has_error`.
unfoldable pub delete_loop : Bool → List Bytes → HashTable → Run (HashTable × Bool × List Event)
delete_loop has_error [] ht = ok (ht, has_error, [])
delete_loop has_error (k ∷ ks) ht = do
  (after, status) ← delete_pair ht k
  elim status [
    | zero ↦ delete_loop has_error ks after
    | suc _ ↦ do
      buffer ← sprintf (missing_reply k)
      (final, failed, events) ← delete_loop true ks after
      ok (
        final,
        failed,
        if has_error then output buffer ∷ events else output (codes "[") ∷ output buffer ∷ events,
      )
  ]

unfoldable pub kvs_delete : Store → List Bytes → Run (Store × ℕ × List Event)
kvs_delete s keys =
    let freed = (do
      (hashed, locks) ← lock_loop wrlock keys none_hashed
      replies ← freed_loop keys
      ok (
        s,
        0,
        (rdlock global ∷ locks) ++ (replies ++ (unlock_loop 0 hashed ++ unlock global ∷ [])),
      )) in
    with_table s freed λ ht. do
      (hashed, locks) ← lock_loop wrlock keys none_hashed
      (after, failed, replies) ← delete_loop false keys ht
      let closed = if failed then replies ++ output (codes "]\n") ∷ [] else replies
      ok (
        live after,
        0,
        (rdlock global ∷ locks) ++ (closed ++ (unlock_loop 0 hashed ++ unlock global ∷ [])),
      )

-- `(key, value)` and a newline, in a buffer that is as long as it takes
abbrev pub show_node : KeyNode → Bytes
show_node n = b'(' ∷ (n.key ++ codes ", " ++ n.value ++ codes ")\n")

unfoldable pub show_chain : Chain → List Event
show_chain [] = []
show_chain (n ∷ c) = output (show_node n) ∷ show_chain c

unfoldable pub show_table : List Chain → List Event
unfolding show_chain
show_table [] = []
show_table (c ∷ cs) = show_chain c ++ show_table cs

-- The function does not test for NULL.
unfoldable pub kvs_show : Bool → Store → Run (List Event)
unfolding show_table
kvs_show use_rwlock null = fault null_pointer
kvs_show use_rwlock dangling = fault use_after_free
kvs_show use_rwlock (live ht) =
    let shown = show_table ht.table in
    ok (if use_rwlock then wrlock global ∷ (shown ++ unlock global ∷ []) else shown)

-- What `kvs_subscribe` and `kvs_unsubscribe` do around the change of the table.
unfoldable pub with_bucket :
    (HashTable → Bytes → ℕ → Run (HashTable × ℕ)) → Store → Bytes → ℕ → Run (Store × ℕ × List Event)
with_bucket change s key fd =
    let freed = (do i ← in_bounds (hash key) table_size; fault use_after_free) in
    with_table s freed λ ht. do
      i ← in_bounds (hash key) table_size
      (after, result) ← change ht key fd
      ok (live after, result, wrlock (bucket i) ∷ unlock (bucket i) ∷ [])

unfoldable pub kvs_subscribe : Store → Bytes → ℕ → Run (Store × ℕ × List Event)
unfolding with_bucket
kvs_subscribe s key fd = with_bucket add_subscriber s key fd

unfoldable pub kvs_unsubscribe : Store → Bytes → ℕ → Run (Store × ℕ × List Event)
unfolding with_bucket
kvs_unsubscribe s key fd = with_bucket remove_subscriber s key fd

-- `tv_sec` and `tv_nsec`, on an `unsigned int` of 32 bits
unfoldable pub delay_to_timespec : ℕ → ℕ × ℕ
delay_to_timespec delay_ms = (delay_ms / 1000, delay_ms % 1000 * 1000000 % 2 ^ 32)

-- What `kvs_wait` hands to `nanosleep`.
unfoldable pub kvs_wait : ℕ → ℕ × ℕ
unfolding delay_to_timespec
kvs_wait delay_ms = delay_to_timespec delay_ms
