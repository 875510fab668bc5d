-- ===== src/Server/Serial/Commands.antt =====
-- kvs_write, kvs_read and kvs_delete of SOParte2/src/server/operations.c as accesses to the buckets,
-- each behind the locks of lock_loop. A thread keeps what it has written to `output_fd`, and
-- `has_error`.
use so.Common.{
  ℕ, suc, if◌then◌else◌, Bool, true, false, Option, none, some, List, [], ◌∷◌, ◌++◌, Bytes, codes,
  ℤ, pos, negsuc, Run, ok, fault, ◌>>=◌,
}
use so.Server.Kvs.{KeyNode, Chain, hash, find_node, update_node, unlink, set_value, new_node}
use so.Server.Sort.{Pair}
use so.Server.Locking.{Hold, shared, owned}
use so.Server.Operations.{
  Store, Lock, bucket, Event, rdlock, wrlock, lock_loop, none_hashed, keys_of, sprintf, read_reply,
  missing_reply, kvs_write, kvs_read, kvs_delete,
}
use so.Server.Serial.{Access, act, look, change, Operation}

abbrev pub Local : Type 0
Local = Run (Bytes × Bool)

-- The bucket that `hash` gives; the calls are of keys that have one.
abbrev index_of : ℤ → ℕ
index_of (pos i) = i
index_of (negsuc i) = 0

abbrev pub bucket_of : Bytes → ℕ
bucket_of key = index_of (hash key)

abbrev pub say : Bytes → Local → Local
say text l = do (out, failed) ← l; ok (out ++ text, failed)

-- `write_pair`, on the chain of the key
unfoldable pub write_chain : Option (List ℕ) → Bytes → Bytes → Chain → Run Chain
unfolding new_node
write_chain memory key value c = elim (find_node key c) [
  | some _ ↦ ok (update_node (set_value value) key c)
  | none ↦ do n ← new_node memory key value; ok (n ∷ c)
]

abbrev pub kept : Local → Chain → Run Chain → Local × Chain
kept l c (ok d) = (l, d)
kept l c (fault why) = (fault why, c)

abbrev pub write_access : Option (List ℕ) → Pair → Access Chain Local
write_access memory p = change (bucket_of p.0) (λ l c. kept l c (write_chain memory p.0 p.1 c))

unfoldable pub write_accesses : (ℕ → Option (List ℕ)) → ℕ → List Pair → List (Access Chain Local)
write_accesses memory i [] = []
write_accesses memory i (p ∷ ps) = write_access (memory i) p ∷ write_accesses memory (suc i) ps

abbrev pub value_at : Option KeyNode → Option Bytes
value_at none = none
value_at (some n) = some n.value

abbrev pub answer : Bytes → Local → Chain → Local
answer key l c = do
  (out, failed) ← l
  buffer ← sprintf (read_reply key (value_at (find_node key c)))
  ok (out ++ buffer, failed)

unfoldable pub look_ups : List Bytes → List (Access Chain Local) → List (Access Chain Local)
look_ups [] last = last
look_ups (k ∷ ks) last = look (bucket_of k) (answer k) ∷ look_ups ks last

unfoldable pub read_accesses : List Bytes → List (Access Chain Local)
unfolding look_ups
read_accesses keys = act (say (codes "[")) ∷ look_ups keys (act (say (codes "]\n")) ∷ [])

-- The reply for a key that is not there; the first one opens the list.
abbrev pub report : Bytes → Local → Local
report key l = do
  (out, failed) ← l
  buffer ← sprintf (missing_reply key)
  ok (out ++ (if failed then buffer else codes "[" ++ buffer), true)

abbrev pub remove_from : Bytes → Local → Chain → Local × Chain
remove_from key l c = elim (find_node key c) [
  | some _ ↦ (l, unlink key c)
  | none ↦ (report key l, c)
]

unfoldable pub removals : List Bytes → List (Access Chain Local) → List (Access Chain Local)
removals [] last = last
removals (k ∷ ks) last = change (bucket_of k) (remove_from k) ∷ removals ks last

abbrev pub no_error : Local → Local
no_error l = do (out, failed) ← l; ok (out, false)

abbrev pub close_errors : Local → Local
close_errors l = do (out, failed) ← l; ok (if failed then out ++ codes "]\n" else out, failed)

unfoldable pub delete_accesses : List Bytes → List (Access Chain Local)
unfolding removals
delete_accesses keys = act no_error ∷ removals keys (act close_errors ∷ [])

-- The buckets that the events lock, in order.
abbrev pub holds : List Event → List (ℕ × Hold)
holds [] = []
holds (rdlock (bucket i) ∷ es) = (i, shared) ∷ holds es
holds (wrlock (bucket i) ∷ es) = (i, owned) ∷ holds es
holds (_ ∷ es) = holds es

abbrev pub locks_of : Run (List Bool × List Event) → List (ℕ × Hold)
locks_of (ok (hashed, events)) = holds events
locks_of (fault why) = []

pub data Call : Type 0 where
  writing : (ℕ → Option (List ℕ)) → List Pair → Call
  reading deleting : List Bytes → Call

abbrev pub keys_in : Call → List Bytes
keys_in (writing memory ps) = keys_of ps
keys_in (reading keys) = keys
keys_in (deleting keys) = keys

abbrev pub accesses_of : Call → List (Access Chain Local)
accesses_of (writing memory ps) = write_accesses memory 0 ps
accesses_of (reading keys) = read_accesses keys
accesses_of (deleting keys) = delete_accesses keys

abbrev pub kind_of : Call → Lock → Event
kind_of (reading keys) = rdlock
kind_of _ = wrlock

unfoldable pub operation : Call → Operation Chain Local
unfolding lock_loop keys_of
operation c = record {
  locks = locks_of (lock_loop (kind_of c) (keys_in c) none_hashed);
  accesses = accesses_of c;
}

-- The call, at once.
unfoldable pub called : Call → Store → Run (Store × ℕ × List Event)
called (writing memory ps) s = kvs_write memory s ps
called (reading keys) s = kvs_read s keys
called (deleting keys) s = kvs_delete s keys
