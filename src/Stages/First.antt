-- ===== src/Stages/First.antt =====
-- SO-Parte1/grupo5-ex1/operations.c: the operations on the static `kvs_table` of a program with one
-- thread and no locks. An operation gives what it writes to `output_fd`.
pub mod Answers
pub mod Equivalence
pub mod Job
pub mod Termination
use so.Common.{
  ℕ, zero, suc, ◌+◌, ◌-◌, ◌*◌, ◌/◌, ◌%◌, ◌^◌, ltb, if◌then◌else◌, Bool, true, false, Option, none,
  some, List, [], ◌∷◌, ◌++◌, Bytes, codes, Run, ok, fault, out_of_bounds, null_pointer,
  use_after_free, length, ◌>>=◌,
}
use so.Server.Sort.{Pair}
use so.Stages.Table.{
  KeyNode, Chain, HashTable, create_hash_table, write_pair, read_pair, delete_pair,
}

abbrev pub max_string_size : ℕ
max_string_size = 40

-- `kvs_table`: NULL, a table, or a table that has been freed.
pub data Store : Type 0 where
  null : Store
  live : HashTable → Store
  dangling : Store

-- `tv_sec` and `tv_nsec`, on an `unsigned int` of 32 bits
unfoldable pub delay_to_timespec : ℕ → ℕ × ℕ
delay_to_timespec delay_ms = (delay_ms / 1000, delay_ms % 1000 * 1000000 % 2 ^ 32)

unfoldable pub kvs_init : Bool → Store → Store × ℕ
unfolding create_hash_table
kvs_init allocated null = elim (create_hash_table allocated) [
  | some ht ↦ (live ht, 0)
  | none ↦ (null, 1)
]
kvs_init allocated s = (s, 1)

-- The pointer stays.
unfoldable pub kvs_terminate : Store → Run (Store × ℕ)
kvs_terminate null = ok (null, 1)
kvs_terminate (live ht) = ok (dangling, 0)
kvs_terminate dangling = fault use_after_free

-- The test `kvs_table == NULL` at the head of the operations, and what they do with a table that
-- has been freed, which it does not notice.
abbrev pub with_table :
    Store
    → Run (Store × ℕ × Bytes)
    → (HashTable → Run (Store × ℕ × Bytes))
    → Run (Store × ℕ × Bytes)
with_table null freed f = ok (null, 1, [])
with_table (live ht) freed f = f ht
with_table dangling freed f = freed

-- A loop over pairs or keys on a table that has been freed: the first round reads from it.
abbrev pub freed_loop {ℓ} : {A : Type ℓ} → List A → Run Bytes
freed_loop [] = ok []
freed_loop (x ∷ xs) = fault use_after_free

-- Whether `malloc` succeeds, by the place in the loop; the status goes to stderr only.
unfoldable pub write_pairs : (ℕ → Bool) → ℕ → List Pair → HashTable → Run HashTable
write_pairs memory i [] ht = ok ht
write_pairs memory i (p ∷ ps) ht = do
  (after, status) ← write_pair (memory i) ht p.0 p.1
  write_pairs memory (suc i) ps after

unfoldable pub kvs_write : (ℕ → Bool) → Store → List Pair → Run (Store × ℕ × Bytes)
kvs_write memory s ps =
    with_table s (do text ← freed_loop ps; ok (s, 0, text))
      λ ht. do after ← write_pairs memory 0 ps ht; ok (live after, 0, [])

-- `sprintf` into a buffer of MAX_STRING_SIZE bytes.
unfoldable pub sprintf : Bytes → Run Bytes
sprintf text = if ltb (length text) max_string_size then ok text else fault out_of_bounds

-- `(key,value)` or `(key,KVSERROR)`
abbrev pub read_reply : Bytes → Option Bytes → Bytes
read_reply key none = b'(' ∷ (key ++ codes ",KVSERROR)")
read_reply key (some value) = b'(' ∷ (key ++ b',' ∷ (value ++ b')' ∷ []))

unfoldable pub read_loop : HashTable → List Bytes → Run Bytes
read_loop ht [] = ok []
read_loop ht (k ∷ ks) = do
  result ← read_pair ht k
  buffer ← sprintf (read_reply k result)
  text ← read_loop ht ks
  ok (buffer ++ text)

unfoldable pub kvs_read : Store → List Bytes → Run (Store × ℕ × Bytes)
kvs_read s keys =
    with_table s (do text ← freed_loop keys; ok (s, 0, b'[' ∷ text ++ codes "]\n"))
      λ ht. do text ← read_loop ht keys; ok (s, 0, b'[' ∷ text ++ codes "]\n")

-- One line for each missing key.
abbrev pub missing_line : Bytes → Bytes
missing_line key = codes "[(" ++ (key ++ codes ",KVSMISSING)]\n")

unfoldable pub delete_loop : List Bytes → HashTable → Run (HashTable × Bytes)
delete_loop [] ht = ok (ht, [])
delete_loop (k ∷ ks) ht = do
  (after, status) ← delete_pair ht k
  elim status [
    | zero ↦ delete_loop ks after
    | suc _ ↦ do
      buffer ← sprintf (missing_line k)
      (final, text) ← delete_loop ks after
      ok (final, buffer ++ text)
  ]

unfoldable pub kvs_delete : Store → List Bytes → Run (Store × ℕ × Bytes)
kvs_delete s keys =
    with_table s (do text ← freed_loop keys; ok (s, 0, text))
      λ ht. do (after, text) ← delete_loop keys ht; ok (live after, 0, text)

-- `(key,value)` and a newline, in a buffer that is as long as it takes
abbrev pub show_node : KeyNode → Bytes
show_node n = b'(' ∷ (n.key ++ b',' ∷ (n.value ++ codes ")\n"))

unfoldable pub show_chain : Chain → Bytes
show_chain [] = []
show_chain (n ∷ c) = show_node n ++ show_chain c

unfoldable pub show_table : List Chain → Bytes
unfolding show_chain
show_table [] = []
show_table (c ∷ cs) = show_chain c ++ show_table cs

-- The function does not test for NULL.
unfoldable pub kvs_show : Store → Run Bytes
unfolding show_table
kvs_show null = fault null_pointer
kvs_show (live ht) = ok (show_table ht.table)
kvs_show dangling = fault use_after_free

-- Left for the second exercise.
unfoldable pub kvs_backup : ℕ
kvs_backup = 0

-- What `kvs_wait` hands to `nanosleep`.
unfoldable pub kvs_wait : ℕ → ℕ × ℕ
unfolding delay_to_timespec
kvs_wait delay_ms = delay_to_timespec delay_ms
