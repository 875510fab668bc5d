-- ===== src/Stages/First/Equivalence.antt =====
-- The operations of grupo5-ex1/operations.c and those of SOParte2/src/server/operations.c, side by
-- side.
use mathlib.Core.Path.{fun_ext}
use so.Common.{ℕ, Option, some, List, [], Bytes, All, Run, ok, ◌≡◌, Bool, true, ◌∙◌, sym}
use so.Server.Kvs
use so.Server.Kvs.Table.{IsValid}
use so.Server.Sort.{Pair, insertion_sort}
use so.Server.Sort.Laws.{All-insertion_sort}
use so.Server.Operations
use so.Server.Operations.{Event}
use so.Server.Operations.Output.{said}
use so.Server.Operations.Locks.{HasBucket}
use so.Server.Operations.Writes.{lookup, last_value-insertion_sort, kvs_write-KvsWrote}
use so.Server.Operations.Replies.{kvs_read-KvsRead, IsShort}
use so.Server.Operations.Deletes.{missing_keys, delete_answer, IsShortName, kvs_delete-KvsDeleted}
use so.Stages.Table.{HashTable}
use so.Stages.First.{Store, live, kvs_write, kvs_read, kvs_delete}
use so.Stages.First.Answers.{
  Holds, IsShortLine, lines, kvs_write-Holds, kvs_read-Holds, kvs_delete-Holds,
}

-- Both tables give every key the same value.
abbrev pub Alike : HashTable → Kvs.HashTable → Type 0
Alike t u = Holds (lookup u) t × IsValid u

pub record BothWrite (first : Run (Store × ℕ × Bytes))
    (server : Run (Operations.Store × ℕ × List Event)) : Type 0 where
  pub t : HashTable
  pub u : Kvs.HashTable
  pub events : List Event
  pub first_returns : first ≡ ok (live t, 0, [])
  pub server_returns : server ≡ ok (Operations.live u, 0, events)
  pub silent : said events ≡ []
  pub alike : Alike t u

pub record BothRead (t : HashTable) (u : Kvs.HashTable) (first : Run (Store × ℕ × Bytes))
    (server : Run (Operations.Store × ℕ × List Event)) : Type 0 where
  pub events : List Event
  pub first_returns : first ≡ ok (live t, 0, said events)
  pub server_returns : server ≡ ok (Operations.live u, 0, events)

pub record BothDelete (missing : List Bytes) (first : Run (Store × ℕ × Bytes))
    (server : Run (Operations.Store × ℕ × List Event)) : Type 0 where
  pub t : HashTable
  pub u : Kvs.HashTable
  pub events : List Event
  pub first_returns : first ≡ ok (live t, 0, lines missing)
  pub server_returns : server ≡ ok (Operations.live u, 0, events)
  pub answers : said events ≡ delete_answer missing
  pub alike : Alike t u

module _ {t : HashTable} {u : Kvs.HashTable} (a : Alike t u) where
  -- Sorting the pairs first makes no difference.
  both_write :
      (memory : ℕ → Bool) (given : (i : ℕ) → memory i ≡ true) (nodes : ℕ → Option (List ℕ))
      (fresh : ℕ → List ℕ) (allocates : (i : ℕ) → nodes i ≡ some (fresh i)) (ps : List Pair)
      → All (λ (p : Pair). HasBucket p.0) ps
      → BothWrite
          (kvs_write memory (live t) ps)
          (Operations.kvs_write nodes (Operations.live u) (insertion_sort ps))
  both_write memory given nodes fresh allocates ps buckets =
      let (after, f, h) = kvs_write-Holds memory given ps a.0 buckets in
      let w =
        kvs_write-KvsWrote nodes fresh allocates (insertion_sort ps) a.1
          (All-insertion_sort (λ q. HasBucket q.0) ps buckets) in
      record {
        t = after;
        u = w.after;
        events = w.events;
        first_returns = f;
        server_returns = w.returns;
        silent = w.silent;
        alike = (
          record {
            full = h.full;
            valid = h.valid;
            forgets = h.forgets;
            reads =
                h.reads
                ∙ fun_ext (λ q. sym (w.reads q ∙ last_value-insertion_sort q ps (lookup u q)));
          },
          w.valid,
        );
      }

  both_read :
      (ks : List Bytes)
      → All HasBucket ks
      → All (IsShort u) ks
      → BothRead t u (kvs_read (live t) ks) (Operations.kvs_read (Operations.live u) ks)
  both_read ks buckets short =
      let r = kvs_read-KvsRead a.1 ks buckets short in
      record {
        events = _;
        first_returns = kvs_read-Holds ks a.0 buckets short ∙ rw r.answers;
        server_returns = r.returns;
      }

  both_delete :
      (ks : List Bytes)
      → All HasBucket ks
      → All IsShortName (missing_keys ks (lookup u))
      → All IsShortLine (missing_keys ks (lookup u))
      → BothDelete
          (missing_keys ks (lookup u))
          (kvs_delete (live t) ks)
          (Operations.kvs_delete (Operations.live u) ks)
  both_delete ks buckets short short_lines =
      let (after, f, h) = kvs_delete-Holds ks a.0 buckets short_lines in
      let d = kvs_delete-KvsDeleted ks a.1 buckets short in
      record {
        t = after;
        u = d.after;
        events = d.events;
        first_returns = f;
        server_returns = d.returns;
        answers = d.answers;
        alike = (
          record {
            full = h.full;
            valid = h.valid;
            forgets = h.forgets;
            reads = h.reads ∙ sym d.reads;
          },
          d.valid,
        );
      }

-- On two tables that give every key the same value: writing the same pairs, in the first part as they
-- come and in the server sorted, leaves two such tables and no output; reading the same keys gives
-- the same bytes; deleting the same keys leaves two such tables, and both report exactly the keys
-- that were missing, the first part in a line for each and the server in one list. The keys have
-- buckets, memory does not run out, and what is formatted fits the buffers.
pub operations-Alike :
    {t : HashTable} {u : Kvs.HashTable} (memory : ℕ → Bool) (nodes : ℕ → Option (List ℕ))
    (fresh : ℕ → List ℕ) (ps : List Pair) (ks : List Bytes)
    → Alike t u
    → ((i : ℕ) → memory i ≡ true)
    → ((i : ℕ) → nodes i ≡ some (fresh i))
    → All (λ (p : Pair). HasBucket p.0) ps
    → All HasBucket ks
    → All (IsShort u) ks
    → All IsShortName (missing_keys ks (lookup u))
    → All IsShortLine (missing_keys ks (lookup u))
    → BothWrite
        (kvs_write memory (live t) ps)
        (Operations.kvs_write nodes (Operations.live u) (insertion_sort ps))
      × BothRead t u (kvs_read (live t) ks) (Operations.kvs_read (Operations.live u) ks)
      × BothDelete
          (missing_keys ks (lookup u))
          (kvs_delete (live t) ks)
          (Operations.kvs_delete (Operations.live u) ks)
operations-Alike memory nodes fresh ps ks a given allocates pairs keys short names rows = (
  both_write a memory given nodes fresh allocates ps pairs,
  both_read a ks keys short,
  both_delete a ks keys names rows,
)
