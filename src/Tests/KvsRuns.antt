-- ===== src/Tests/KvsRuns.antt =====
-- The hash table and the operations on it, from a table with one key.
use mathlib.Core.List.{Perm}
use so.Common.{
  ℕ, none, some, List, [], ◌∷◌, Bytes, codes, pos, negsuc, ok, fault, out_of_bounds, arith, ◌≡◌,
  refl, strcmp, ◌∙◌,
}
use so.Server.Kvs.{
  HashTable, hash, write_pair, delete_pair, add_subscriber, remove_subscriber, notify_clients,
  send_all,
}
use so.Server.Kvs.Table.{node_of, create_hash_table-IsValid}
use so.Server.Kvs.Write.{Sets, written, missing, write_pair-Sets, delete_pair-Sets}
use so.Server.Kvs.Places.{CanAdd, CanRemove, subscribed}
use so.Server.Kvs.Notify.{
  Subscribes, add_subscriber-Subscribes, remove_subscriber-Subscribes, remove-add_subscriber,
  notify_clients-key,
}
use so.Server.Operations.{kvs_delete}
use so.Server.Operations.Writes.{lookup}
use so.Server.Operations.Deletes.{KvsDeleted, IsShortName, kvs_delete-KvsDeleted}
use so.Server.Job.SortedKeys.{All-missing_keys}
use so.Tests.Samples.{
  key_b, key_b-hash, empty_table, key_a, key_a-hash, memory_fds, memory_of, written_a, sample,
  sample-IsValid, node_a, node_of-sample, key_a-IsText,
}
use so.Server.Sort.{Pair, insertion_sort}
use so.Server.Sort.Laws.{IsSorted, with_key, insertion_sort_lem}
use so.Server.Operations.{live, kvs_write, kvs_read}
use so.Server.Operations.Writes.{KvsWrote, kvs_write-KvsWrote}
use so.Server.Operations.Replies.{KvsRead, kvs_read-KvsRead, kvs_read-overrun}

hash_runs :
    (hash (codes "Bob") ≡ pos 1) × (hash (codes "9z") ≡ pos 9) × (hash (codes "_a") ≡ negsuc 0)
unfolding hash
hash_runs = (refl, refl, refl)

write_pair-Sets_example :
    Sets empty_table key_a
      (some (written memory_fds key_a (codes "1") (node_of empty_table key_a)))
      0
      (write_pair (some memory_fds) empty_table key_a (codes "1"))
write_pair-Sets_example =
    write_pair-Sets create_hash_table-IsValid.2 key_a key_a-hash memory_fds (codes "1")

delete_pair-Sets_example :
    Sets sample key_a none (missing (node_of sample key_a)) (delete_pair sample key_a)
delete_pair-Sets_example = delete_pair-Sets sample-IsValid key_a key_a-hash

add_subscriber-Subscribes_example :
    Subscribes (CanAdd 5 (node_of sample key_a)) 0 5 sample key_a (add_subscriber sample key_a 5)
add_subscriber-Subscribes_example = add_subscriber-Subscribes sample-IsValid key_a key_a-hash 5

remove_subscriber-Subscribes_example :
    Subscribes
      (CanRemove 9 (node_of sample key_a))
      9
      0
      sample
      key_a
      (remove_subscriber sample key_a 9)
remove_subscriber-Subscribes_example =
    remove_subscriber-Subscribes sample-IsValid key_a key_a-hash 9

CanAdd-sample : CanAdd 5 (node_of sample key_a)
CanAdd-sample = rw node_of-sample (omega arith)

remove-add_subscriber_example :
    (mid : HashTable) × (after : HashTable) × (add_subscriber sample key_a 5 ≡ ok (mid, 0))
    × (remove_subscriber mid key_a 5 ≡ ok (after, 0))
    × ((p : ℕ) → subscribed (node_of after key_a) p ≡ subscribed (node_of sample key_a) p)
remove-add_subscriber_example =
    remove-add_subscriber sample-IsValid key_a key_a-hash 5 (omega arith) CanAdd-sample

notify_clients-key_example : notify_clients sample key_a ≡ ok (0, send_all key_a memory_fds)
notify_clients-key_example =
    notify_clients-key sample-IsValid key_a key_a-hash {n = node_a} key_a-IsText (omega arith)
      node_of-sample

abbrev three : List Pair
three = (codes "b", codes "1") ∷ (codes "ab", codes "2") ∷ (codes "b", codes "3") ∷ []

insertion_sort_example :
    IsSorted (insertion_sort three)
    × Perm (insertion_sort three) three
    × ((k : Bytes) → with_key k (insertion_sort three) ≡ with_key k three)
insertion_sort_example = insertion_sort_lem three

insertion_sort-three :
    insertion_sort three
    ≡ (codes "ab", codes "2") ∷ (codes "b", codes "1") ∷ (codes "b", codes "3") ∷ []
unfolding insertion_sort strcmp
insertion_sort-three = refl

three-hash : hash (codes "b") ≡ pos 1
unfolding hash
three-hash = refl

kvs_write-KvsWrote_example : KvsWrote three sample (kvs_write memory_of (live sample) three)
kvs_write-KvsWrote_example =
    kvs_write-KvsWrote memory_of (λ i. memory_fds) (λ i. refl) three sample-IsValid
      ((1, three-hash), ((0, key_a-hash), ((1, three-hash), tt)))

kvs_read-KvsRead_example : KvsRead sample (key_a ∷ []) (kvs_read (live sample) (key_a ∷ []))
kvs_read-KvsRead_example =
    kvs_read-KvsRead sample-IsValid (key_a ∷ []) ((0, key_a-hash), tt)
      (rw node_of-sample (omega arith), tt)

kvs_delete-KvsDeleted_example :
    KvsDeleted (key_a ∷ key_b ∷ []) sample (kvs_delete (live sample) (key_a ∷ key_b ∷ []))
kvs_delete-KvsDeleted_example =
    kvs_delete-KvsDeleted (key_a ∷ key_b ∷ []) sample-IsValid
      ((0, key_a-hash), ((1, key_b-hash), tt))
      (All-missing_keys IsShortName (key_a ∷ key_b ∷ []) (lookup sample)
        (omega arith, (omega arith, tt)))

abbrev long_key : Bytes
long_key = codes "abcdefghijklmnopqrstuvwxyzabcdefghijklm"

long_key-hash : hash long_key ≡ pos 0
unfolding hash
long_key-hash = refl

node_of-long : node_of sample long_key ≡ none
unfolding strcmp
node_of-long = written_a.reads long_key ∙ create_hash_table-IsValid.3 long_key

kvs_read-overrun_example : kvs_read (live sample) (key_a ∷ long_key ∷ []) ≡ fault out_of_bounds
kvs_read-overrun_example =
    kvs_read-overrun sample-IsValid (key_a ∷ []) long_key []
      ((0, key_a-hash), ((0, long_key-hash), tt)) (rw node_of-long (omega arith))
