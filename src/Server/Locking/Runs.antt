-- ===== src/Server/Locking/Runs.antt =====
-- kvs_write and kvs_read, called on sorted keys as the job files do, keep to the order of the locks.
use so.Server.Kvs.{read_pair, delete_pair}
use so.Server.Operations.{
  freed_loop, write_pairs, read_reply, sprintf, missing_reply, kvs_delete, with_bucket,
}
use so.Server.Kvs.{hash, table_size, add_subscriber, remove_subscriber}
use so.Server.Operations.{Lock, backups, bucket, with_bucket, kvs_subscribe, kvs_unsubscribe}
use so.Server.Locking.{hold}
use so.Common.{
  ltb→lt, ltb, if◌then◌else◌, ◌⊎◌, suc, zero, ℤ, pos, negsuc, arith, in_bounds, Always, ends, stops,
  >>=-every, >>=-Always, ℕ, ◌<◌, Option, List, [], ◌∷◌, ◌++◌, Bytes, All, Run, ok, ◌≡◌, refl, ◌>>=◌,
  codes, str_gt, false, Bool, Always, >>=-every, >>=-Always, Bool-cases, inl, inr, true,
}
use so.Server.Kvs.{HashTable}
use so.Server.Sort.{Pair, insertion_sort}
use so.Server.Sort.Laws.{IsSorted, insertion_sort-IsSorted, All-insertion_sort}
use so.Server.Operations.{
  Store, null, live, dangling, Event, output, unlock, global, rdlock, wrlock, keys_of, kvs_write,
  kvs_read, read_loop, delete_loop,
}
use so.Server.Operations.LockOrder.{IsLower, IsSortedKeys}
use so.Server.Job.{sort_keys}
use so.Server.Job.SortedKeys.{All-sort_keys, All-keys_of}
use so.Server.Locking.{free, shared, owned, none_held}
use so.Server.Locking.Holds.{rdlock-TakesAs, wrlock-TakesAs, IsOrderly-same}
use so.Server.Kvs.{Chain}
use so.Server.Operations.{show_chain, show_table, kvs_show}
use so.Server.Locking.Brackets.{
  outputs-IsOrderly, keys_lead, between_global, KeepsOrder, IsOutputs, between_buckets,
}

sorted_from :
    (k : Bytes) (ps : List Pair)
    → All (λ (q : Pair). str_gt k q.0 ≡ false) ps
    → All (λ q. str_gt k q ≡ false) (keys_of ps)
unfolding keys_of
sorted_from k [] h = tt
sorted_from k (p ∷ ps) h = (h.0, sorted_from k ps h.1)

keys_of-IsSortedKeys : (ps : List Pair) → IsSorted ps → IsSortedKeys (keys_of ps)
unfolding keys_of
keys_of-IsSortedKeys [] h = tt
keys_of-IsSortedKeys (p ∷ ps) h = (sorted_from p.0 ps h.0, keys_of-IsSortedKeys ps h.1)

sort_keys-IsSortedKeys : (ks : List Bytes) → IsSortedKeys (sort_keys ks)
unfolding sort_keys
sort_keys-IsSortedKeys ks = keys_of-IsSortedKeys _ (insertion_sort-IsSorted _)

-- The run keeps to the order of the locks, where it returns.
abbrev pub InOrder : Run (Store × ℕ × List Event) → Type 0
InOrder run = Always (λ r. KeepsOrder r.2) run

freed_loop-IsOutputs {ℓ} : {A : Type ℓ} → (xs : List A) → Always IsOutputs (freed_loop xs)
freed_loop-IsOutputs [] = ends tt
freed_loop-IsOutputs (x ∷ xs) = stops

read_loop-IsOutputs : (ht : HashTable) (ks : List Bytes) → Always IsOutputs (read_loop ht ks)
unfolding read_loop
read_loop-IsOutputs ht [] = ends tt
read_loop-IsOutputs ht (k ∷ ks) = >>=-every (read_pair ht k) λ found.
    >>=-every (sprintf (read_reply k found))
      λ buffer. >>=-Always IsOutputs (read_loop ht ks) (read_loop-IsOutputs ht ks) λ es o. ends o

IsOutputs-append : (es fs : List Event) → IsOutputs es → IsOutputs fs → IsOutputs (es ++ fs)
IsOutputs-append [] fs o p = p
IsOutputs-append (output text ∷ es) fs o p = IsOutputs-append es fs o p
IsOutputs-append (rdlock l ∷ es) fs o p = absurd o
IsOutputs-append (wrlock l ∷ es) fs o p = absurd o
IsOutputs-append (unlock l ∷ es) fs o p = absurd o

zero_or_suc : (n : ℕ) → (n ≡ 0) ⊎ ((m : ℕ) × (n ≡ suc m))
zero_or_suc zero = inl refl
zero_or_suc (suc n) = inr (n, refl)

reported :
    (b : Bool) (buffer : Bytes) (r : HashTable × Bool × List Event)
    → IsOutputs r.2
    → Always
        (λ (s : HashTable × Bool × List Event). IsOutputs s.2)
        (ok (r.0, r.1, if b then output buffer ∷ r.2 else output (codes "[") ∷ output buffer ∷ r.2))
reported true buffer r o = ends o
reported false buffer r o = ends o

delete_loop-IsOutputs :
    (b : Bool) (ks : List Bytes) (ht : HashTable)
    → Always (λ (r : HashTable × Bool × List Event). IsOutputs r.2) (delete_loop b ks ht)
unfolding delete_loop
delete_loop-IsOutputs b [] ht = ends tt
delete_loop-IsOutputs b (k ∷ ks) ht = >>=-every (delete_pair ht k) λ r. elim (zero_or_suc r.1) [
  | inl removed ↦ rw removed (delete_loop-IsOutputs b ks r.0)
  | inr (n, failed) ↦ rw failed (
      >>=-every (sprintf (missing_reply k)) λ buffer.
        >>=-Always (λ (r : HashTable × Bool × List Event). IsOutputs r.2) (delete_loop true ks r.0)
          (delete_loop-IsOutputs true ks r.0) (reported b buffer))
]

-- The reports, with `]` and a newline where a key is missing.
closed-IsOutputs :
    (failed : Bool) (es : List Event)
    → IsOutputs es
    → IsOutputs (if failed then es ++ output (codes "]\n") ∷ [] else es)
closed-IsOutputs false es o = o
closed-IsOutputs true es o = IsOutputs-append es (output (codes "]\n") ∷ []) o tt

-- Where every key starts with a lower-case letter, `kvs_write` on the sorted pairs keeps to the
-- order of the locks whenever it returns.
pub kvs_write-InOrder :
    (memory : ℕ → Option (List ℕ)) (s : Store) (ps : List Pair)
    → All (λ (p : Pair). IsLower p.0) ps
    → InOrder (kvs_write memory s (insertion_sort ps))
unfolding kvs_write
kvs_write-InOrder memory null ps lower = ends (λ rest h. h)
kvs_write-InOrder memory dangling ps lower =
    let sorted = insertion_sort ps in
    let (l, f, leads) =
      keys_lead wrlock owned wrlock-TakesAs shared (keys_of sorted)
        (All-keys_of IsLower sorted (All-insertion_sort (λ q. IsLower q.0) ps lower))
        (keys_of-IsSortedKeys sorted (insertion_sort-IsSorted ps)) in
    rw (f, ◌>>=◌)
      (>>=-Always IsOutputs (freed_loop sorted) (freed_loop-IsOutputs sorted)
        (λ es o. ends (λ rest h. between_global l.0 l.1 es rest leads o h)))
kvs_write-InOrder memory (live ht) ps lower =
    let sorted = insertion_sort ps in
    let (l, f, leads) =
      keys_lead wrlock owned wrlock-TakesAs shared (keys_of sorted)
        (All-keys_of IsLower sorted (All-insertion_sort (λ q. IsLower q.0) ps lower))
        (keys_of-IsSortedKeys sorted (insertion_sort-IsSorted ps)) in
    rw (f, ◌>>=◌)
      (>>=-every (write_pairs memory 0 sorted ht)
        (λ after. ends (λ rest h. between_global l.0 l.1 [] rest leads tt h)))

-- So does `kvs_delete` on the sorted keys.
pub kvs_delete-InOrder :
    (s : Store) (ks : List Bytes) → All IsLower ks → InOrder (kvs_delete s (sort_keys ks))
unfolding kvs_delete
kvs_delete-InOrder null ks lower = ends (λ rest h. h)
kvs_delete-InOrder dangling ks lower =
    let keys = sort_keys ks in
    let (l, f, leads) =
      keys_lead wrlock owned wrlock-TakesAs shared keys (All-sort_keys IsLower ks lower)
        (sort_keys-IsSortedKeys ks) in
    rw (f, ◌>>=◌)
      (>>=-Always IsOutputs (freed_loop keys) (freed_loop-IsOutputs keys)
        (λ es o. ends (λ rest h. between_global l.0 l.1 es rest leads o h)))
kvs_delete-InOrder (live ht) ks lower =
    let keys = sort_keys ks in
    let (l, f, leads) =
      keys_lead wrlock owned wrlock-TakesAs shared keys (All-sort_keys IsLower ks lower)
        (sort_keys-IsSortedKeys ks) in
    rw (f, ◌>>=◌)
      (>>=-Always (λ (r : HashTable × Bool × List Event). IsOutputs r.2) (delete_loop false keys ht)
        (delete_loop-IsOutputs false keys ht)
        (λ r o.
          ends (λ rest h. between_global l.0 l.1 _ rest leads (closed-IsOutputs r.1 r.2 o) h)))

-- So does `kvs_read` on the sorted keys.
pub kvs_read-InOrder :
    (s : Store) (ks : List Bytes) → All IsLower ks → InOrder (kvs_read s (sort_keys ks))
unfolding kvs_read
kvs_read-InOrder null ks lower = ends (λ rest h. h)
kvs_read-InOrder dangling ks lower =
    let keys = sort_keys ks in
    let (l, f, leads) =
      keys_lead rdlock shared rdlock-TakesAs free keys (All-sort_keys IsLower ks lower)
        (sort_keys-IsSortedKeys ks) in
    rw (f, ◌>>=◌)
      (>>=-Always IsOutputs (freed_loop keys) (freed_loop-IsOutputs keys) (λ es o. ends (λ rest h.
        between_buckets l.0 l.1 ((output (codes "[") ∷ es) ++ output (codes "]\n") ∷ []) rest leads
          (IsOutputs-append es (output (codes "]\n") ∷ []) o tt) h)))
kvs_read-InOrder (live ht) ks lower =
    let keys = sort_keys ks in
    let (l, f, leads) =
      keys_lead rdlock shared rdlock-TakesAs free keys (All-sort_keys IsLower ks lower)
        (sort_keys-IsSortedKeys ks) in
    rw (f, ◌>>=◌)
      (>>=-Always IsOutputs (read_loop ht keys) (read_loop-IsOutputs ht keys) (λ es o.
        ends (λ rest h.
          between_buckets l.0 l.1 ((output (codes "[") ∷ es) ++ output (codes "]\n") ∷ []) rest
            leads (IsOutputs-append es (output (codes "]\n") ∷ []) o tt) h)))

in_bounds-lt : (x : ℤ) (n : ℕ) → Always (λ i. i < n) (in_bounds x n)
in_bounds-lt (pos i) n = elim (Bool-cases (ltb i n)) [
  | inl lt ↦ rw lt (ends (ltb→lt i n lt))
  | inr not_lt ↦ rw not_lt stops
]
in_bounds-lt (negsuc i) n = stops

one_bucket :
    (i : ℕ) (m : Lock) → hold (hold none_held (bucket i) owned) (bucket i) free m ≡ none_held m
one_bucket i global = refl
one_bucket i backups = refl
one_bucket i (bucket j) = ground arith

-- One bucket alone, whatever the key.
with_bucket-InOrder :
    (change : HashTable → Bytes → ℕ → Run (HashTable × ℕ)) (s : Store) (key : Bytes) (fd : ℕ)
    → InOrder (with_bucket change s key fd)
unfolding with_bucket
with_bucket-InOrder change null key fd = ends (λ rest h. h)
with_bucket-InOrder change dangling key fd =
    >>=-every (in_bounds (hash key) table_size) (λ i. stops)
with_bucket-InOrder change (live ht) key fd =
    >>=-Always (λ i. i < table_size) (in_bounds (hash key) table_size)
      (in_bounds-lt (hash key) table_size)
      (λ i lt. >>=-every (change ht key fd) (λ r. ends (λ rest h.
        ((λ m not_free. absurd (not_free refl), lt), IsOrderly-same rest (one_bucket i) h))))

pub kvs_subscribe-InOrder : (s : Store) (key : Bytes) (fd : ℕ) → InOrder (kvs_subscribe s key fd)
unfolding kvs_subscribe
kvs_subscribe-InOrder s key fd = with_bucket-InOrder add_subscriber s key fd

pub kvs_unsubscribe-InOrder :
    (s : Store) (key : Bytes) (fd : ℕ) → InOrder (kvs_unsubscribe s key fd)
unfolding kvs_unsubscribe
kvs_unsubscribe-InOrder s key fd = with_bucket-InOrder remove_subscriber s key fd

show_chain-IsOutputs : (c : Chain) → IsOutputs (show_chain c)
unfolding show_chain
show_chain-IsOutputs [] = tt
show_chain-IsOutputs (n ∷ c) = show_chain-IsOutputs c

show_table-IsOutputs : (cs : List Chain) → IsOutputs (show_table cs)
unfolding show_table
show_table-IsOutputs [] = tt
show_table-IsOutputs (c ∷ cs) =
    IsOutputs-append (show_chain c) (show_table cs) (show_chain-IsOutputs c)
      (show_table-IsOutputs cs)

-- As the job files call it, `kvs_show` takes no lock.
pub kvs_show-KeepsOrder : (s : Store) → Always KeepsOrder (kvs_show false s)
unfolding kvs_show
kvs_show-KeepsOrder null = stops
kvs_show-KeepsOrder dangling = stops
kvs_show-KeepsOrder (live ht) = ends (λ rest h.
    outputs-IsOrderly none_held (show_table ht.table) rest (show_table-IsOutputs ht.table) h)
