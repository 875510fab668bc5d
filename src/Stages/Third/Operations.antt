-- ===== src/Stages/Third/Operations.antt =====
-- kvs_write, kvs_read and kvs_delete of SO-Parte1/grupo5-ex3/operations.c, on the table of
-- Stages.Table, with their locks. What goes to stderr is left out.
use so.Common.{
  ℕ, zero, suc, ltb, if◌then◌else◌, Bool, true, false, List, [], ◌∷◌, ◌++◌, Bytes, codes, Run, ok,
  fault, out_of_bounds, use_after_free, in_bounds, length, get_or, set, replicate, ◌>>=◌, Option,
  none, some,
}
use so.Server.Kvs.{max_string_size}
use so.Server.Sort.{Pair}
use so.Server.Operations.{Lock, global, bucket, Event, rdlock, wrlock, unlock, output}
use so.Stages.Table.{HashTable, hash, table_size, write_pair, read_pair, delete_pair}
use so.Stages.First.{Store, null, live, dangling}

-- The test `kvs_table == NULL`, and what the operations do with a table that has been freed.
abbrev pub with_table :
    Store
    → Run (Store × ℕ × List Event)
    → (HashTable → Run (Store × ℕ × List Event))
    → Run (Store × ℕ × List Event)
with_table null freed f = ok (null, 1, [])
with_table (live ht) freed f = f ht
with_table dangling freed f = freed

-- A loop over pairs or keys on a table that has been freed: the first round reads from it.
abbrev pub freed_loop {ℓ} : {A : Type ℓ} → List A → Run (List Event)
freed_loop [] = ok []
freed_loop (x ∷ xs) = fault use_after_free

-- The loop that locks each bucket that `hashed` does not mark.
unfoldable pub lock_loop : (Lock → Event) → List Bytes → List Bool → Run (List Bool × List Event)
lock_loop kind [] hashed = ok (hashed, [])
lock_loop kind (k ∷ ks) hashed = do
  i ← in_bounds (hash k) (length hashed)
  let marked = get_or hashed i false
  (after, events) ← lock_loop kind ks (if marked then hashed else set hashed i true)
  ok (after, if marked then events else kind (bucket i) ∷ events)

-- `int hashed[26] = {0}`
abbrev pub none_hashed : List Bool
none_hashed = replicate table_size false

-- The loop that unlocks the marked buckets, from bucket `i` on.
unfoldable pub unlock_loop : ℕ → List Bool → List Event
unlock_loop i [] = []
unlock_loop i (b ∷ bs) =
    let rest = unlock_loop (suc i) bs in if b then unlock (bucket i) ∷ rest else rest

-- Whether `malloc` succeeds, by the place in the loop; the status goes to stderr only.
unfoldable pub write_pairs : (ℕ → Bool) → ℕ → List Pair → HashTable → Run HashTable
write_pairs memory i [] ht = ok ht
write_pairs memory i (p ∷ ps) ht = do
  (after, status) ← write_pair (memory i) ht p.0 p.1
  write_pairs memory (suc i) ps after

unfoldable pub keys_of : List Pair → List Bytes
keys_of [] = []
keys_of (p ∷ ps) = p.0 ∷ keys_of ps

unfoldable pub kvs_write : (ℕ → Bool) → Store → List Pair → Run (Store × ℕ × List Event)
unfolding keys_of
kvs_write memory s ps =
    let freed = (do
      (hashed, locks) ← lock_loop wrlock (keys_of ps) none_hashed
      replies ← freed_loop ps
      ok (
        s,
        0,
        (rdlock global ∷ locks) ++ (replies ++ (unlock_loop 0 hashed ++ unlock global ∷ [])),
      )) in
    with_table s freed λ ht. do
      (hashed, locks) ← lock_loop wrlock (keys_of ps) none_hashed
      after ← write_pairs memory 0 ps ht
      ok (live after, 0, (rdlock global ∷ locks) ++ (unlock_loop 0 hashed ++ unlock global ∷ []))

-- `sprintf` into a buffer of MAX_STRING_SIZE bytes.
unfoldable pub sprintf : Bytes → Run Bytes
sprintf text = if ltb (length text) max_string_size then ok text else fault out_of_bounds

-- `(key,value)` or `(key,KVSERROR)`
abbrev pub read_reply : Bytes → Option Bytes → Bytes
read_reply key none = b'(' ∷ (key ++ codes ",KVSERROR)")
read_reply key (some value) = b'(' ∷ (key ++ b',' ∷ (value ++ b')' ∷ []))

unfoldable pub read_loop : HashTable → List Bytes → Run (List Event)
read_loop ht [] = ok []
read_loop ht (k ∷ ks) = do
  result ← read_pair ht k
  buffer ← sprintf (read_reply k result)
  events ← read_loop ht ks
  ok (output buffer ∷ events)

unfoldable pub kvs_read : Store → List Bytes → Run (Store × ℕ × List Event)
kvs_read s keys =
    let freed = (do
      (hashed, locks) ← lock_loop rdlock keys none_hashed
      replies ← freed_loop keys
      ok (
        s,
        0,
        locks
            ++ (((output (codes "[") ∷ replies) ++ output (codes "]\n") ∷ [])
                ++ unlock_loop 0 hashed),
      )) in
    with_table s freed λ ht. do
      (hashed, locks) ← lock_loop rdlock keys none_hashed
      replies ← read_loop ht keys
      ok (
        s,
        0,
        locks
            ++ (((output (codes "[") ∷ replies) ++ output (codes "]\n") ∷ [])
                ++ unlock_loop 0 hashed),
      )

abbrev pub missing_reply : Bytes → Bytes
missing_reply key = b'(' ∷ (key ++ codes ",KVSMISSING)")

-- The loop, with `has_error`.
unfoldable pub delete_loop : Bool → List Bytes → HashTable → Run (HashTable × Bool × List Event)
delete_loop has_error [] ht = ok (ht, has_error, [])
delete_loop has_error (k ∷ ks) ht = do
  (after, status) ← delete_pair ht k
  elim status [
    | zero ↦ delete_loop has_error ks after
    | suc _ ↦ do
      buffer ← sprintf (missing_reply k)
      (final, failed, events) ← delete_loop true ks after
      ok (
        final,
        failed,
        if has_error then output buffer ∷ events else output (codes "[") ∷ output buffer ∷ events,
      )
  ]

unfoldable pub kvs_delete : Store → List Bytes → Run (Store × ℕ × List Event)
kvs_delete s keys =
    let freed = (do
      (hashed, locks) ← lock_loop wrlock keys none_hashed
      replies ← freed_loop keys
      ok (
        s,
        0,
        (rdlock global ∷ locks) ++ (replies ++ (unlock_loop 0 hashed ++ unlock global ∷ [])),
      )) in
    with_table s freed λ ht. do
      (hashed, locks) ← lock_loop wrlock keys none_hashed
      (after, failed, replies) ← delete_loop false keys ht
      let closed = if failed then replies ++ output (codes "]\n") ∷ [] else replies
      ok (
        live after,
        0,
        (rdlock global ∷ locks) ++ (closed ++ (unlock_loop 0 hashed ++ unlock global ∷ [])),
      )
