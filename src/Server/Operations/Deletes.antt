-- ===== src/Server/Operations/Deletes.antt =====
-- kvs_delete against the map from keys to values.
use mathlib.Core.Path.{fun_ext}
use so.Common.{
  ℕ, ◌<◌, if◌then◌else◌, Bool, true, false, Option, none, some, List, [], ◌∷◌, ◌++◌, Bytes, codes,
  All, Run, ok, str_eq, ◌≡◌, refl, ◌∙◌, ◌>>=◌, ap, Bool-cases, Option-cases, inl, inr, length,
  arith,
}
use so.Server.Kvs.{KeyNode, HashTable, delete_pair, max_string_size}
use so.Server.Kvs.Table.{IsValid, node_of}
use so.Server.Kvs.Write.{delete_pair-Sets}
use so.Server.Operations.Balance.{Balanced, keys_Locked, outer-Balanced}
use so.Server.Operations.{
  Store, live, Event, output, wrlock, delete_loop, kvs_delete, missing_reply, unlock_loop, rdlock,
  global, unlock,
}
use so.Server.Operations.Locks.{HasBucket, wrlock-IsTaking, taken-append, released-append}
use so.Server.Operations.Writes.{lookup, value_in}
use so.Server.Operations.Output.{said, said-append, unlock_loop-said, between-said}
use so.Server.Operations.Replies.{sprintf-short, IsQuiet}

-- The table as a map from keys to values.
abbrev pub Map : Type 0
Map = Bytes → Option Bytes

abbrev pub remove_key : Bytes → Map → Map
remove_key k m q = if str_eq k q then none else m q

abbrev pub remove_keys : List Bytes → Map → Map
remove_keys [] m = m
remove_keys (k ∷ ks) m = remove_keys ks (remove_key k m)

abbrev pub if_missing : Option Bytes → Bytes → List Bytes → List Bytes
if_missing none k ks = k ∷ ks
if_missing (some v) k ks = ks

-- The keys that are not there when their turn comes, in order.
abbrev pub missing_keys : List Bytes → Map → List Bytes
missing_keys [] m = []
missing_keys (k ∷ ks) m = if_missing (m k) k (missing_keys ks (remove_key k m))

abbrev pub any : Bool → List Bytes → Bool
any b [] = b
any b (k ∷ ks) = true

-- What the loop writes: `[` before the first missing key, unless it has been written.
abbrev pub told : Bool → List Bytes → List Event
told b [] = []
told true (k ∷ ks) = output (missing_reply k) ∷ told true ks
told false (k ∷ ks) = output (codes "[") ∷ output (missing_reply k) ∷ told true ks

abbrev pub IsShortName : Bytes → Type 0
IsShortName k = length (missing_reply k) < max_string_size

-- The loop ends in a valid table without the keys.
pub record Deleted (b : Bool) (ks : List Bytes) (ht : HashTable)
    (run : Run (HashTable × Bool × List Event)) : Type 0 where
  pub after : HashTable
  pub returns :
      run ≡ ok (after, any b (missing_keys ks (lookup ht)), told b (missing_keys ks (lookup ht)))
  pub valid : IsValid after
  pub reads : lookup after ≡ remove_keys ks (lookup ht)

any-true : (ks : List Bytes) → any true ks ≡ true
any-true [] = refl
any-true (k ∷ ks) = refl

pub lookup-removed :
    (k q : Bytes) (x : Option KeyNode) {y : Option KeyNode}
    → y ≡ (if str_eq k q then none else x)
    → value_in y ≡ (if str_eq k q then none else value_in x)
lookup-removed k q x e = elim (Bool-cases (str_eq k q)) [
  | inl here ↦ rw (e, here)
  | inr other ↦ rw (e, other)
]

module _ {k : Bytes} {ks : List Bytes} {ht mid : HashTable}
    (moved : lookup mid ≡ remove_key k (lookup ht)) where
  -- A key that is there goes, and nothing is written for it.
  gone :
      (b : Bool)
      → delete_pair ht k ≡ ok (mid, 0)
      → (v : Bytes) → lookup ht k ≡ some v
      → Deleted b ks mid (delete_loop b ks mid)
      → Deleted b (k ∷ ks) ht (delete_loop b (k ∷ ks) ht)
  unfolding delete_loop
  gone b run v there r = record {
    after = r.after;
    returns = rw (run, ◌>>=◌, there, ← moved, r.returns);
    valid = r.valid;
    reads = r.reads ∙ ap (remove_keys ks) moved;
  }

  -- A key that is not there is reported.
  reported :
      (b : Bool)
      → delete_pair ht k ≡ ok (mid, 1)
      → lookup ht k ≡ none
      → IsShortName k
      → Deleted true ks mid (delete_loop true ks mid)
      → Deleted b (k ∷ ks) ht (delete_loop b (k ∷ ks) ht)
  unfolding delete_loop
  reported true run absent short r = record {
    after = r.after;
    returns = rw (run, ◌>>=◌, sprintf-short _ short, ◌>>=◌, r.returns, absent, ← moved, any-true);
    valid = r.valid;
    reads = r.reads ∙ ap (remove_keys ks) moved;
  }
  reported false run absent short r = record {
    after = r.after;
    returns = rw (run, ◌>>=◌, sprintf-short _ short, ◌>>=◌, r.returns, absent, ← moved, any-true);
    valid = r.valid;
    reads = r.reads ∙ ap (remove_keys ks) moved;
  }

delete_loop-Deleted :
    (b : Bool) (ks : List Bytes) {ht : HashTable}
    → IsValid ht
    → All HasBucket ks
    → All IsShortName (missing_keys ks (lookup ht))
    → Deleted b ks ht (delete_loop b ks ht)
unfolding delete_loop
delete_loop-Deleted b [] {ht} v h short = record {
  after = ht;
  returns = refl;
  valid = v;
  reads = refl;
}
delete_loop-Deleted b (k ∷ ks) {ht} v ((i, e), h) short =
    let s = delete_pair-Sets v k e in
    let moved : lookup s.after ≡ remove_key k (lookup ht) =
      fun_ext (λ q. lookup-removed k q (node_of ht q) (s.reads q)) in
    elim (Option-cases (node_of ht k)) [
      | inl absent ↦
          let reports = rw absent at short in
          reported moved b (s.returns ∙ rw absent) (rw absent) reports.0
            (delete_loop-Deleted true ks s.valid h (rw moved reports.1))
      | inr (n, found) ↦
          gone moved b (s.returns ∙ rw found) n.value (rw found)
            (delete_loop-Deleted b ks s.valid h (rw moved (rw found at short)))
    ]

-- The answer in the output file: nothing where no key is missing.
abbrev pub delete_answer : List Bytes → Bytes
delete_answer [] = []
delete_answer (k ∷ ks) = b'[' ∷ said (told true (k ∷ ks)) ++ codes "]\n"

-- `kvs_delete` on a table: status 0, a valid table without the keys and with every other as it was,
-- and one answer with the missing keys, if there are any. The locks are balanced.
pub record KvsDeleted (ks : List Bytes) (ht : HashTable) (run : Run (Store × ℕ × List Event))
    : Type 0 where
  pub after : HashTable
  pub events : List Event
  pub returns : run ≡ ok (live after, 0, events)
  pub valid : IsValid after
  pub reads : lookup after ≡ remove_keys ks (lookup ht)
  pub balanced : Balanced events
  pub answers : said events ≡ delete_answer (missing_keys ks (lookup ht))

told-IsQuiet : (b : Bool) (ks : List Bytes) → IsQuiet (told b ks)
told-IsQuiet b [] = λ l. (refl, refl)
told-IsQuiet true (k ∷ ks) = λ l. omega (arith, told-IsQuiet true ks l)
told-IsQuiet false (k ∷ ks) = λ l. omega (arith, told-IsQuiet true ks l)

-- The reports, closed where there are any.
abbrev middle : List Bytes → List Event
middle ks = if any false ks then told false ks ++ output (codes "]\n") ∷ [] else told false ks

middle-IsQuiet : (ks : List Bytes) → IsQuiet (middle ks)
middle-IsQuiet [] = λ l. (refl, refl)
middle-IsQuiet (k ∷ ks) = λ l. omega (
  arith,
  taken-append l (told true ks) (output (codes "]\n") ∷ []),
  released-append l (told true ks) (output (codes "]\n") ∷ []),
  told-IsQuiet true ks l,
)

middle-said : (ks : List Bytes) → said (middle ks) ≡ delete_answer ks
middle-said [] = refl
middle-said (k ∷ ks) = rw (said-append (told false (k ∷ ks)) (output (codes "]\n") ∷ []))

-- On a valid table, where every key has a bucket and the report of each missing key is shorter than
-- 40 bytes, `kvs_delete` returns 0 with a valid table without the keys and with every other key as
-- it was. It answers with the keys that are not there when their turn comes, in order, and not at
-- all where there are none. Each lock is taken at most once and released as often.
pub kvs_delete-KvsDeleted :
    (ks : List Bytes) {ht : HashTable}
    → IsValid ht
    → All HasBucket ks
    → All IsShortName (missing_keys ks (lookup ht))
    → KvsDeleted ks ht (kvs_delete (live ht) ks)
unfolding kvs_delete
kvs_delete-KvsDeleted ks {ht} v h short =
    let k = keys_Locked wrlock wrlock-IsTaking ks h in
    let d = delete_loop-Deleted false ks v h short in
    let ms = missing_keys ks (lookup ht) in
    record {
      after = d.after;
      events =
          (rdlock global ∷ k.events)
          ++ (middle ms ++ (unlock_loop 0 k.after ++ unlock global ∷ []));
      returns = rw (k.returns, ◌>>=◌, d.returns);
      valid = d.valid;
      reads = d.reads;
      balanced = outer-Balanced k (middle ms) (middle-IsQuiet ms);
      answers =
          between-said (rdlock global ∷ k.events) (middle ms)
            (unlock_loop 0 k.after ++ unlock global ∷ []) k.writes_none
            (rw (said-append (unlock_loop 0 k.after) (unlock global ∷ []), unlock_loop-said))
          ∙ middle-said ms;
    }
