-- ===== src/Server/Operations/Writes.antt =====
-- kvs_write against the map from keys to values.
use so.Common.{
  ℕ, suc, if◌then◌else◌, Bool, Option, none, some, List, [], ◌∷◌, ◌++◌, Bytes, All, ℤ, pos, Run, ok,
  str_eq, ◌≡◌, refl, sym, ◌∙◌, ◌>>=◌, ap, Bool-cases, inl, inr, negsuc,
}
use so.Server.Kvs.{KeyNode, HashTable, hash}
use so.Server.Kvs.Table.{IsValid, node_of}
use so.Server.Kvs.Write.{written, write_pair-Sets}
use so.Server.Operations.Output.{said, said-append, between-said, unlock_loop-said}
use so.Server.Sort.{Pair, insertion_sort}
use so.Server.Sort.Laws.{with_key, with_key-insertion_sort}
use so.Server.Operations.Balance.{Balanced, keys_Locked, outer-Balanced, outer-taken}
use so.Server.Operations.{
  Store, live, bucket, Event, wrlock, write_pairs, keys_of, kvs_write, rdlock, global, unlock_loop,
  unlock,
}
use so.Server.Operations.Locks.{HasBucket, taken, mark, wrlock-IsTaking}

abbrev pub value_in : Option KeyNode → Option Bytes
value_in none = none
value_in (some n) = some n.value

-- The value of a key.
abbrev pub lookup : HashTable → Bytes → Option Bytes
lookup ht q = value_in (node_of ht q)

-- The value of a key after pairs have been written one after the other.
abbrev pub last_value : Bytes → List Pair → Option Bytes → Option Bytes
last_value q [] r = r
last_value q (p ∷ ps) r = last_value q ps (if str_eq p.0 q then some p.1 else r)

-- Only the pairs of the key count.
last_value-with_key :
    (q : Bytes) (ps : List Pair) (r : Option Bytes)
    → last_value q (with_key q ps) r ≡ last_value q ps r
last_value-with_key q [] r = refl
last_value-with_key q (p ∷ ps) r = elim (Bool-cases (str_eq p.0 q)) [
  | inl here ↦ rw (here, last_value, here) (last_value-with_key q ps (some p.1))
  | inr other ↦ rw other (last_value-with_key q ps r)
]

-- Sorting the pairs changes no value that they leave.
pub last_value-insertion_sort :
    (q : Bytes) (ps : List Pair) (r : Option Bytes)
    → last_value q (insertion_sort ps) r ≡ last_value q ps r
last_value-insertion_sort q ps r =
    sym (last_value-with_key q (insertion_sort ps) r)
    ∙ ap (λ xs. last_value q xs r) (with_key-insertion_sort q ps)
    ∙ last_value-with_key q ps r

value_in-written :
    (fds : List ℕ) (key value : Bytes) (r : Option KeyNode)
    → value_in (some (written fds key value r)) ≡ some value
value_in-written fds key value none = refl
value_in-written fds key value (some n) = refl

value_in-after :
    (q key : Bytes) (fds : List ℕ) (value : Bytes) (old x : Option KeyNode) {y : Option KeyNode}
    → y ≡ (if str_eq key q then some (written fds key value old) else x)
    → value_in y ≡ (if str_eq key q then some value else value_in x)
value_in-after q key fds value old x e = elim (Bool-cases (str_eq key q)) [
  | inl here ↦ rw (e, here) (value_in-written fds key value old)
  | inr other ↦ rw (e, other)
]

-- The loop over the pairs ends in a valid table with the last value of every key.
pub record Wrote (ps : List Pair) (ht : HashTable) (run : Run HashTable) : Type 0 where
  pub after : HashTable
  pub returns : run ≡ ok after
  pub valid : IsValid after
  pub reads : (q : Bytes) → lookup after q ≡ last_value q ps (lookup ht q)

module _ (memory : ℕ → Option (List ℕ)) (fresh : ℕ → List ℕ)
    (allocates : (i : ℕ) → memory i ≡ some (fresh i)) where
  pub write_pairs-Wrote :
      (i : ℕ) (ps : List Pair) {ht : HashTable}
      → IsValid ht
      → All (λ p. HasBucket p.0) ps
      → Wrote ps ht (write_pairs memory i ps ht)
  unfolding write_pairs
  write_pairs-Wrote i [] {ht} v h = record {
    after = ht;
    returns = refl;
    valid = v;
    reads = λ q. refl;
  }
  write_pairs-Wrote i (p ∷ ps) {ht} v ((j, e), h) =
      let s = write_pair-Sets v p.0 e (fresh i) p.1 in
      let r = write_pairs-Wrote (suc i) ps s.valid h in
      record {
        after = r.after;
        returns = rw (allocates i, s.returns, ◌>>=◌, r.returns);
        valid = r.valid;
        reads = λ q.
            r.reads q
            ∙ ap (last_value q ps)
                (value_in-after q p.0 (fresh i) p.1 (node_of ht p.0) (node_of ht q) (s.reads q));
      }

keys_of-HasBucket : (ps : List Pair) → All (λ p. HasBucket p.0) ps → All HasBucket (keys_of ps)
unfolding keys_of
keys_of-HasBucket [] h = tt
keys_of-HasBucket (p ∷ ps) h = (h.0, keys_of-HasBucket ps h.1)

-- How often the lock of the bucket with this number is taken.
abbrev pub taken_at : ℤ → List Event → ℕ
taken_at (pos i) events = taken (bucket i) events
taken_at (negsuc i) events = 0

-- `kvs_write` on a table: status 0, and a valid table where every key has the last value that the
-- pairs give it. Each lock is taken once at most and released; each key's bucket is locked.
pub record KvsWrote (ps : List Pair) (ht : HashTable) (run : Run (Store × ℕ × List Event))
    : Type 0 where
  pub after : HashTable
  pub events : List Event
  pub returns : run ≡ ok (live after, 0, events)
  pub valid : IsValid after
  pub reads : (q : Bytes) → lookup after q ≡ last_value q ps (lookup ht q)
  pub silent : said events ≡ []
  pub balanced : Balanced events
  pub locked : All (λ k. taken_at (hash k) events ≡ 1) (keys_of ps)

locked-All :
    (keys : List Bytes) (events : List Event) (hashed : List Bool)
    → ((i : ℕ) → taken (bucket i) events ≡ mark hashed i)
    → All HasBucket keys
    → All (λ k. (i : ℕ) → hash k ≡ pos i → mark hashed i ≡ 1) keys
    → All (λ k. taken_at (hash k) events ≡ 1) keys
locked-All [] events hashed t h c = tt
locked-All (k ∷ ks) events hashed t ((i, e), h) c =
    (rw e (t i ∙ c.0 i e), locked-All ks events hashed t h c.1)

module _ (memory : ℕ → Option (List ℕ)) (fresh : ℕ → List ℕ)
    (allocates : (i : ℕ) → memory i ≡ some (fresh i)) where
  -- On a valid table, where every key has a bucket and memory does not run out, `kvs_write` returns 0
  -- with a valid table where every key has the last value that the pairs give it. Each lock is taken
  -- at most once and released as often, and the bucket of each key is locked once.
  pub kvs_write-KvsWrote :
      (ps : List Pair) {ht : HashTable}
      → IsValid ht
      → All (λ p. HasBucket p.0) ps
      → KvsWrote ps ht (kvs_write memory (live ht) ps)
  unfolding kvs_write
  kvs_write-KvsWrote ps {ht} v h =
      let k = keys_Locked wrlock wrlock-IsTaking (keys_of ps) (keys_of-HasBucket ps h) in
      let w = write_pairs-Wrote memory fresh allocates 0 ps v h in
      record {
        after = w.after;
        events = _;
        returns = rw (k.returns, ◌>>=◌, w.returns);
        valid = w.valid;
        reads = w.reads;
        silent =
            between-said (rdlock global ∷ k.events) [] (unlock_loop 0 k.after ++ unlock global ∷ [])
              k.writes_none
              (rw (said-append (unlock_loop 0 k.after) (unlock global ∷ []), unlock_loop-said));
        balanced = outer-Balanced k [] (λ l. (refl, refl));
        locked =
            locked-All (keys_of ps) _ k.after (λ i. outer-taken k [] (λ l. (refl, refl)) i)
              (keys_of-HasBucket ps h) k.covers;
      }
