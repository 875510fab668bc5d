-- ===== src/Stages/First/Answers.antt =====
-- The operations of grupo5-ex1/operations.c against the map from keys to values.
use mathlib.Core.Path.{fun_ext, subst, sym}
use so.Common.{
  fault, ℕ, ◌<◌, Option, none, some, List, [], ◌∷◌, ◌++◌, Bytes, All, Run, ok, ◌≡◌, refl, ◌∙◌,
  ◌>>=◌, ap, Option-cases, inl, inr, length, arith, Bool, true, >>=-eq-ok, suc,
}
use so.Server.Kvs
use so.Server.Kvs.Table.{IsValid, node_of}
use so.Server.Kvs.Write.{read_pair-node_of, delete_pair-Sets}
use so.Server.Sort.{Pair}
use so.Server.Operations
use so.Server.Operations.Locks.{HasBucket}
use so.Server.Operations.Writes.{lookup, last_value, write_pairs-Wrote}
use so.Server.Operations.Replies.{reply_all, read_answer, IsShort}
use so.Server.Operations.Deletes.{Map, remove_key, remove_keys, missing_keys, lookup-removed}
use so.Stages.Table.{HashTable}
use so.Stages.Table.Forget.{forget, write_pair-forget, read_pair-forget, delete_pair-forget}
use so.Stages.First.{
  live, write_pairs, kvs_write, sprintf, max_string_size, read_reply, read_loop, kvs_read,
  missing_line, delete_loop, kvs_delete,
}

sprintf-short : (text : Bytes) → length text < max_string_size → sprintf text ≡ ok text
unfolding sprintf
sprintf-short text h = ground arith

-- A table of the first part that stands for the map: a valid table without its subscribers.
pub record Holds (m : Map) (t : HashTable) : Type 0 where
  pub full : Kvs.HashTable
  pub valid : IsValid full
  pub forgets : t ≡ forget full
  pub reads : lookup full ≡ m

abbrev pub write_all : List Pair → Map → Map
write_all ps m q = last_value q ps (m q)

-- One line for each key.
abbrev pub lines : List Bytes → Bytes
lines [] = []
lines (k ∷ ks) = missing_line k ++ lines ks

abbrev pub IsShortLine : Bytes → Type 0
IsShortLine k = length (missing_line k) < max_string_size

abbrev forget_run : Run Kvs.HashTable → Run HashTable
forget_run (ok ht) = ok (forget ht)
forget_run (fault why) = fault why

same_reply : (k : Bytes) (o : Option Bytes) → read_reply k o ≡ Operations.read_reply k o
same_reply k none = refl
same_reply k (some value) = refl

module _ (fresh : ℕ → List ℕ) where
  write_pairs-forget :
      (memory : ℕ → Bool) (given : (i : ℕ) → memory i ≡ true) (i : ℕ) (ps : List Pair)
      (ht : Kvs.HashTable) {after : Kvs.HashTable}
      → Operations.write_pairs (λ i. some (fresh i)) i ps ht ≡ ok after
      → write_pairs memory i ps (forget ht) ≡ ok (forget after)
  unfolding write_pairs Operations.write_pairs
  write_pairs-forget memory given i [] ht e = ap forget_run e
  write_pairs-forget memory given i (p ∷ ps) ht e =
      let ((mid, status), d, f) = >>=-eq-ok (Kvs.write_pair (some (fresh i)) ht p.0 p.1) _ e in
      rw (given i, write_pair-forget ht p.0 (some (fresh i)) p.1, d, ◌>>=◌)
        (write_pairs-forget memory given (suc i) ps mid f)

read_loop-forget :
    (ks : List Bytes) {ht : Kvs.HashTable}
    → IsValid ht
    → All HasBucket ks
    → All (IsShort ht) ks
    → read_loop (forget ht) ks ≡ ok (reply_all (lookup ht) ks)
unfolding read_loop
read_loop-forget [] v h short = refl
read_loop-forget (k ∷ ks) {ht} v ((i, e), h) (s, short) = rw (
  read_pair-forget ht k,
  read_pair-node_of v k e,
  ◌>>=◌,
  same_reply k (lookup ht k),
  sprintf-short (Operations.read_reply k (lookup ht k)) s,
  read_loop-forget ks v h short,
)

-- What the loop over the keys of a delete leaves.
record Loses (ks : List Bytes) (ht : Kvs.HashTable) (run : Run (HashTable × Bytes)) : Type 0 where
  after : Kvs.HashTable
  returns : run ≡ ok (forget after, lines (missing_keys ks (lookup ht)))
  valid : IsValid after
  reads : lookup after ≡ remove_keys ks (lookup ht)

delete_loop-forget :
    (ks : List Bytes) {ht : Kvs.HashTable}
    → IsValid ht
    → All HasBucket ks
    → All IsShortLine (missing_keys ks (lookup ht))
    → Loses ks ht (delete_loop ks (forget ht))
unfolding delete_loop
delete_loop-forget [] {ht} v h short = record {
  after = ht;
  returns = refl;
  valid = v;
  reads = refl;
}
delete_loop-forget (k ∷ ks) {ht} v ((i, e), h) short =
    let s = delete_pair-Sets v k e in
    let moved : lookup s.after ≡ remove_key k (lookup ht) =
      fun_ext (λ q. lookup-removed k q (node_of ht q) (s.reads q)) in
    elim (Option-cases (node_of ht k)) [
      | inl absent ↦
          let reports = rw absent at short in
          let r = delete_loop-forget ks s.valid h (rw moved reports.1) in
          record {
            after = r.after;
            returns = rw (
              delete_pair-forget ht k,
              s.returns,
              absent,
              ◌>>=◌,
              sprintf-short _ reports.0,
              ◌>>=◌,
              r.returns,
              ← moved,
            );
            valid = r.valid;
            reads = r.reads ∙ ap (remove_keys ks) moved;
          }
      | inr (n, found) ↦
          let r = delete_loop-forget ks s.valid h (rw moved (rw found at short)) in
          record {
            after = r.after;
            returns = rw (delete_pair-forget ht k, s.returns, found, ◌>>=◌, r.returns, ← moved);
            valid = r.valid;
            reads = r.reads ∙ ap (remove_keys ks) moved;
          }
    ]

-- Where the table stands for `m`, `kvs_write` leaves one that stands for `m` with the last value of
-- every key that the pairs give.
pub kvs_write-Holds :
    {m : Map} {t : HashTable} (memory : ℕ → Bool)
    → ((i : ℕ) → memory i ≡ true)
    → (ps : List Pair) → Holds m t
    → All (λ (p : Pair). HasBucket p.0) ps
    → (after : HashTable) × (kvs_write memory (live t) ps ≡ ok (live after, 0, []))
      × Holds (write_all ps m) after
unfolding kvs_write
kvs_write-Holds {m} {t} memory given ps h buckets =
    let w = write_pairs-Wrote (λ i. some []) (λ i. []) (λ i. refl) 0 ps h.valid buckets in
    (
      forget w.after,
      rw (h.forgets, write_pairs-forget (λ i. []) memory given 0 ps h.full w.returns, ◌>>=◌),
      record {
        full = w.after;
        valid = w.valid;
        forgets = refl;
        reads = fun_ext (λ q. w.reads q ∙ ap (λ f. last_value q ps (f q)) h.reads);
      },
    )

-- `kvs_read` answers from `m`, key by key.
pub kvs_read-Holds :
    {m : Map} {t : HashTable} (ks : List Bytes)
    → Holds m t
    → All HasBucket ks
    → All (λ k. length (Operations.read_reply k (m k)) < max_string_size) ks
    → kvs_read (live t) ks ≡ ok (live t, 0, read_answer m ks)
unfolding kvs_read
kvs_read-Holds {m} {t} ks h buckets short =
    rw
      (
        h.forgets,
        read_loop-forget ks h.valid buckets (
            subst (λ f. All (λ k. length (Operations.read_reply k (f k)) < max_string_size) ks)
              (sym h.reads) short),
        ◌>>=◌,
      )
      (ap (λ f. ok (live (forget h.full), 0, read_answer f ks)) h.reads)

-- `kvs_delete` leaves a table that stands for `m` without the keys, and writes one line for each key
-- that is not there when its turn comes.
pub kvs_delete-Holds :
    {m : Map} {t : HashTable} (ks : List Bytes)
    → Holds m t
    → All HasBucket ks
    → All IsShortLine (missing_keys ks m)
    → (after : HashTable) × (kvs_delete (live t) ks ≡ ok (live after, 0, lines (missing_keys ks m)))
      × Holds (remove_keys ks m) after
unfolding kvs_delete
kvs_delete-Holds {m} {t} ks h buckets short =
    let d =
      delete_loop-forget ks h.valid buckets
        (subst (λ f. All IsShortLine (missing_keys ks f)) (sym h.reads) short) in
    (
      forget d.after,
      rw (h.forgets, d.returns, ◌>>=◌, h.reads),
      record {
        full = d.after;
        valid = d.valid;
        forgets = refl;
        reads = d.reads ∙ ap (remove_keys ks) h.reads;
      },
    )
